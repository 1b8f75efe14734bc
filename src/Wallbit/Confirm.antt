-- ===== src/Wallbit/Confirm.antt =====
-- wallbit/confirmation_actions.py (buttons of the chat channels) and the confirm and cancel views of
-- wallbit/views.py. The clock stands still while one handler runs. Two handlers that interleave are
-- in `Race`.
pub mod Buttons
pub mod Replay
pub mod Outcome
pub mod Race
use tresqu_api.Common.{
  ℕ, Bool, true, false, not, ◌&&◌, Option, none, some, List, [], ◌∷◌, String, if◌then◌else◌,
}
use tresqu_api.Wallbit.Limits.{AccountResult, found, not_connected, get_account, kill_switch_on}
use tresqu_api.Wallbit.Models.{Env, World, WallbitAccount, AgentDecision, Call}
use tresqu_api.Wallbit.Decisions.{
  claim_pending_decision, get_pending_decision, mark_failed, mark_cancelled,
}
use tresqu_api.Wallbit.Executors.{
  Execution, succeeded, unanswered, rejected, unknown_tool, is_local_only, execute_decision,
}

-- The replies, by the branch that gives them.
pub data Reply : Type 0 where
  already_resolved : Reply
  no_account : (message : String) → Reply
  kill_switch : Reply
  unknown_operation : (message : String) → Reply
  executed_ok : (tx_uuid : String) → Reply
  uncertain_reply : Reply
  wallbit_rejected : (error : String) → Reply
  operation_cancelled : Reply
  unrecognised : Reply
  nothing : Reply

-- `(decision.tools_called or [{}])[0].get("tool", "") in LOCAL_ONLY_TOOLS`
unfoldable pub first_is_local : List Call → Bool
first_is_local [] = false
first_is_local (call ∷ calls) = is_local_only call

-- The end of `execute_confirmed_decision`, by what `execute_decision` returned or raised.
unfoldable pub report : ℕ → AgentDecision → Execution × World → Reply × World
unfolding mark_failed
report id d (succeeded tx_uuid, w) = (executed_ok tx_uuid, w)
report id d (unanswered error, w) = (uncertain_reply, w)
report id d (rejected error, w) = (wallbit_rejected error, w)
report id d (unknown_tool message, w) = (unknown_operation message, mark_failed id d message w)

unfoldable pub run_on_account : Env → ℕ → AgentDecision → WallbitAccount → World → Reply × World
unfolding first_is_local report kill_switch_on execute_decision
run_on_account env id d account w =
    if not (first_is_local d.tools_called) && kill_switch_on account w.now
    then (kill_switch, mark_failed id d "kill_switch_active" w)
    else report id d (execute_decision env id d account w)

unfoldable pub on_account : Env → ℕ → AgentDecision → World → AccountResult → Reply × World
unfolding run_on_account
on_account env id d w (not_connected message) = (no_account message, mark_failed id d message w)
on_account env id d w (found account) = run_on_account env id d account w

-- What follows the claim.
unfoldable pub run_claimed : Env → ℕ → ℕ → AgentDecision × World → Reply × World
unfolding on_account
run_claimed env user id (d, w) = on_account env id d w (get_account user w)

unfoldable pub execute_confirmed_decision : Env → ℕ → ℕ → World → Reply × World
unfolding run_claimed claim_pending_decision
execute_confirmed_decision env user id w = elim (claim_pending_decision user id w) [
  | none ↦ (already_resolved, w)
  | some claimed ↦ run_claimed env user id claimed
]

unfoldable pub cancel_pending_decision : ℕ → ℕ → World → Reply × World
unfolding get_pending_decision mark_cancelled
cancel_pending_decision user id w = elim (get_pending_decision user id w) [
  | none ↦ (already_resolved, w)
  | some d ↦ (operation_cancelled, mark_cancelled id d w)
]
