-- ===== src/Wallbit/System.antt =====
-- The entry points of the app as one sequence of steps: tool calls of the agent, confirmations and
-- cancellations of the user, Celery tasks, and the passing of time. Each runs to its end before the
-- next; two that interleave are in Confirm/Race.antt.
pub mod Budget
use tresqu_api.Common.{ℕ, ◌+◌, Option, List, [], ◌∷◌, String}
use tresqu_api.Common.Int.{ℤ}
use tresqu_api.Wallbit.Models.{Env, World, Snapshot}
use tresqu_api.Wallbit.Confirm.{execute_confirmed_decision, cancel_pending_decision}
use tresqu_api.Wallbit.Sync.{run_wallbit_sync}
use tresqu_api.Wallbit.Reconcile.{reconcile_uncertain_decision}
use tresqu_api.Wallbit.Proposals.{
  Asker, preview_move_funds, preview_chest, preview_set_card_status, preview_resume_bot,
  pause_bot_directly,
}
use tresqu_api.Wallbit.Trades.{preview_place_trade}

pub data Operation : Type 0 where
  confirm cancel : (user id : ℕ) → Operation
  reconcile : (retries id : ℕ) → Operation
  sync : (account_id : ℕ) → Operation
  propose_trade :
      Asker
      → Option Snapshot
      → (action symbol : String) → (amount : ℤ) → (order_type : String) → (limit_price : Option ℤ)
      → (time_in_force : String) → Operation
  propose_move : Asker → (currency from_account to_account : String) → (amount : ℤ) → Operation
  propose_chest :
      Asker
      → (action : String) → (robo_advisor_id : ℕ) → (amount : ℤ)
      → (counter_account chest_category : String) → Operation
  propose_card : Asker → (card_uuid new_status : String) → Operation
  propose_resume : Asker → Operation
  pause : (user : ℕ) → (duration_hours : ℤ) → Operation
  wait : (seconds : ℕ) → Operation

pub run : Env → Operation → World → World
unfolding execute_confirmed_decision cancel_pending_decision reconcile_uncertain_decision
    run_wallbit_sync preview_place_trade preview_move_funds preview_chest preview_set_card_status
    preview_resume_bot pause_bot_directly
run env (confirm user id) w = (execute_confirmed_decision env user id w).1
run env (cancel user id) w = (cancel_pending_decision user id w).1
run env (reconcile retries id) w = (reconcile_uncertain_decision env retries id w).1
run env (sync account_id) w = (run_wallbit_sync env account_id w).1
run env (propose_trade asker snapshot action symbol amount order_type price tif) w =
    (preview_place_trade env asker snapshot action symbol amount order_type price tif w).1
run env (propose_move asker currency from_account to_account amount) w =
    (preview_move_funds asker currency from_account to_account amount w).1
run env (propose_chest asker action robo_advisor_id amount counter_account category) w =
    (preview_chest asker action robo_advisor_id amount counter_account category w).1
run env (propose_card asker card_uuid new_status) w =
    (preview_set_card_status asker card_uuid new_status w).1
run env (propose_resume asker) w = (preview_resume_bot asker w).1
run env (pause user duration_hours) w = (pause_bot_directly user duration_hours w).1
run env (wait seconds) w = record w { now = w.now + seconds }

pub run_all : Env → List Operation → World → World
unfolding run
run_all env [] w = w
run_all env (op ∷ ops) w = run_all env ops (run env op w)
