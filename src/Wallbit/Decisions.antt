-- ===== src/Wallbit/Decisions.antt =====
-- wallbit/agent_safety.py, lines 176 to 298: the life of an `AgentDecision` row. A handler holds a
-- copy of the row, and `save(update_fields=...)` writes the named fields of its copy to the row;
-- the other fields of the row keep what another process may have written meanwhile.
pub mod Lifecycle
pub mod Counting
use tresqu_api.Common.{
  ℕ, suc, ◌+◌, Bool, true, false, not, ◌&&◌, Option, none, some, List, [], ◌∷◌, String, ◌==◌,
  str_eq, if◌then◌else◌, is_some, prefix,
}
use tresqu_api.Common.Dict.{lookup, insert, modify}
use tresqu_api.Wallbit.Models.{
  World, AgentDecision, Call, DecisionStatus, pending, executing, executed_status, failed,
  cancelled, uncertain_status,
}

-- `create_pending_decision`: the new row's id, and the row as the model's defaults complete it.
unfoldable pub create_pending_decision : ℕ → String → String → Call → World → ℕ × World
create_pending_decision user channel user_message call w =
    let decision : AgentDecision = record {
      user = user;
      channel = channel;
      user_message = user_message;
      tools_called = call ∷ [];
      requires_confirmation = true;
      confirmed_at = none;
      executed = false;
      wallbit_tx_uuid = none;
      error = "";
      status = pending;
      created_at = w.now;
    } in
    (
      w.next_decision,
      record w {
        decisions = insert w.next_decision decision w.decisions;
        next_decision = suc w.next_decision;
      },
    )

pub is_pending : DecisionStatus → Bool
is_pending pending = true
is_pending _ = false

-- The filter of `_pending_qs`, but for the id and the user.
unfoldable pub claimable : AgentDecision → Bool
unfolding is_pending
claimable d =
    d.requires_confirmation && not d.executed && not (is_some d.confirmed_at) && is_pending d.status

-- `get_pending_decision`: `none` is `DoesNotExist`.
unfoldable pub get_pending_decision : ℕ → ℕ → World → Option AgentDecision
unfolding claimable
get_pending_decision user id w = elim (lookup id w.decisions) [
  | none ↦ none
  | some d ↦ if d.user == user && claimable d then some d else none
]

-- `UPDATE ... WHERE id = id`
pub update_row : ℕ → (AgentDecision → AgentDecision) → World → World
unfolding modify
update_row id f w = record w { decisions = modify id f w.decisions }

-- `claim_pending_decision`: one step, under the row lock. It returns the handler's copy.
unfoldable pub claim_pending_decision : ℕ → ℕ → World → Option (AgentDecision × World)
unfolding get_pending_decision update_row
claim_pending_decision user id w = elim (get_pending_decision user id w) [
  | none ↦ none
  | some d ↦ some (
    record d { status = executing; confirmed_at = some w.now },
    update_row id (λ row. record row { status = executing; confirmed_at = some w.now }) w,
  )
]

-- What `_stamp_confirmed` leaves in the handler's copy, and in the row when it is saved.
pub stamp_copy : ℕ → Option ℕ → Option ℕ
stamp_copy now none = some now
stamp_copy now (some at) = some at

pub stamp_row : ℕ → Option ℕ → Option ℕ → Option ℕ
stamp_row now none row = some now
stamp_row now (some at) row = row

-- `if wallbit_tx_uuid:`
unfoldable pub link_tx : String → Option String → Option String
link_tx uuid old = if str_eq uuid "" then old else some uuid

abbrev pub error_limit : ℕ
error_limit = 8000

-- The row as `mark_executed` saves it from the copy `d`.
unfoldable pub executed_row : ℕ → AgentDecision → String → AgentDecision → AgentDecision
unfolding stamp_row link_tx
executed_row now d uuid row = record row {
  executed = true;
  status = executed_status;
  error = "";
  confirmed_at = stamp_row now d.confirmed_at row.confirmed_at;
  wallbit_tx_uuid = link_tx uuid row.wallbit_tx_uuid;
}

-- The row after a save of `error` and `status`, as the other `mark_...` functions make it.
unfoldable pub closed_row :
    ℕ → AgentDecision → DecisionStatus → String → AgentDecision → AgentDecision
unfolding stamp_row
closed_row now d status error row = record row {
  error = error;
  status = status;
  confirmed_at = stamp_row now d.confirmed_at row.confirmed_at;
}

unfoldable pub mark_executed : ℕ → AgentDecision → String → World → World
unfolding update_row executed_row
mark_executed id d uuid w = update_row id (executed_row w.now d uuid) w

unfoldable pub mark_failed : ℕ → AgentDecision → String → World → World
unfolding update_row closed_row
mark_failed id d error w = update_row id (closed_row w.now d failed (prefix error_limit error)) w

unfoldable pub mark_cancelled : ℕ → AgentDecision → World → World
unfolding update_row closed_row
mark_cancelled id d w = update_row id (closed_row w.now d cancelled "cancelled_by_user") w

unfoldable pub mark_uncertain : ℕ → AgentDecision → String → World → World
unfolding update_row closed_row
mark_uncertain id d error w =
    update_row id (closed_row w.now d uncertain_status (prefix error_limit error)) w
