-- ===== src/Wallbit/Tests/Propose.antt =====
-- Runs of the proposals and of sequences of operations, and their theorems at such inputs.
use tresqu_api.Common.{
  ℕ, ◌+◌, ◌≤◌, ◌≡◌, refl, ◌⊎◌, true, none, some, [], ◌∷◌, List, arith, upper, strip,
}
use tresqu_api.Common.Int.{◌+ℤ◌}
use tresqu_api.Common.Dict.{lookup}
use tresqu_api.Wallbit.Models.{World}
use tresqu_api.Wallbit.Limits.{usd, get_account, limits_for, daily_move_total, max_trade_exceeded}
use tresqu_api.Wallbit.Decisions.Counting.{IsFresh, write_count, claimable_count}
use tresqu_api.Wallbit.Confirm.{already_resolved, execute_confirmed_decision}
use tresqu_api.Wallbit.Proposals.{Asker, refused, proposed, preview_move_funds}
use tresqu_api.Wallbit.Proposals.Stored.{Proposes}
use tresqu_api.Wallbit.Trades.{preview_place_trade}
use tresqu_api.Wallbit.Trades.Stored.{GoodTrade, preview_place_trade-Proposes}
use tresqu_api.Wallbit.System.{Operation, confirm, propose_move, run_all}
use tresqu_api.Wallbit.System.Budget.{proposal_count, run_all_budget, confirm_once}
use tresqu_api.Wallbit.Tests.{broker, account, start}

abbrev asker : Asker
asker = record { user = 1; channel = "telegram"; user_message = "compra" }

-- The cap of one operation is USD 500.
too_much :
    (preview_move_funds asker "usd" "default" "investment" (usd 501) start).0
    ≡ refused (some max_trade_exceeded)
unfolding preview_move_funds upper get_account lookup strip limits_for ◌+ℤ◌ daily_move_total
too_much = refl

stored : (preview_move_funds asker "usd" "default" "investment" (usd 300) start).0 ≡ proposed 8 true
unfolding preview_move_funds upper get_account lookup strip limits_for ◌+ℤ◌ daily_move_total
stored = refl

preview_place_trade-Proposes_example :
    Proposes
      (GoodTrade 1 start)
      asker
      start
      (preview_place_trade broker asker none "buy" "aapl" (usd 50) "MARKET" none "DAY" start)
preview_place_trade-Proposes_example =
    preview_place_trade-Proposes broker asker none "buy" "aapl" (usd 50) "MARKET" none "DAY" start

abbrev paused : World
paused = record start { accounts = (1, record account { kill_switch_until = some 9000 }) ∷ [] }

paused_at : lookup 1 paused.accounts ≡ some (record account { kill_switch_until = some 9000 })
unfolding lookup
paused_at = refl

start-IsFresh : IsFresh start
unfolding lookup
start-IsFresh id b = ground arith

abbrev session : List Operation
session =
    propose_move asker "usd" "default" "investment" (usd 300)
    ∷ confirm 1 7
    ∷ confirm 1 7
    ∷ confirm 1 8
    ∷ []

run_all_budget_example :
    write_count (run_all broker session start).log
    ≤ write_count start.log + claimable_count start + proposal_count session
run_all_budget_example = run_all_budget broker session start start-IsFresh

confirm_once_example :
    (execute_confirmed_decision broker 1 7 start ≡ (already_resolved, start))
    ⊎ ((ops : List Operation) (other : ℕ)
        → execute_confirmed_decision broker other 7
            (run_all broker ops (execute_confirmed_decision broker 1 7 start).1)
          ≡ (already_resolved, run_all broker ops (execute_confirmed_decision broker 1 7 start).1))
confirm_once_example = confirm_once broker 1 7 start start-IsFresh
