-- ===== src/Wallbit/Views/Confirming.antt =====
-- The button of a chat (wallbit/confirmation_actions.py) and the endpoint of the dashboard
-- (`AgentConfirmView` of wallbit/views.py) confirm a decision in the same way.
use tresqu_api.Common.{ℕ, ◌≡◌, refl, inl, inr, not, ◌&&◌, Bool-cases, Option-cases}
use tresqu_api.Wallbit.Limits.{AccountResult, found, not_connected, get_account, kill_switch_on}
use tresqu_api.Wallbit.Models.{Env, World, AgentDecision}
use tresqu_api.Wallbit.Decisions.{claim_pending_decision}
use tresqu_api.Wallbit.Executors.{
  Execution, succeeded, unanswered, rejected, unknown_tool, execute_decision,
}
use tresqu_api.Wallbit.Confirm.{
  Reply, already_resolved, no_account, kill_switch, unknown_operation, executed_ok, uncertain_reply,
  wallbit_rejected, operation_cancelled, unrecognised, nothing, report, run_on_account, run_claimed,
  on_account, first_is_local, execute_confirmed_decision,
}
use tresqu_api.Wallbit.Views.{HttpResponse}
use tresqu_api.Wallbit.Views.Decisions.{
  agent_confirm, confirm_with_claimed, confirm_on_account, confirm_with, respond_executed,
}

-- The status that goes with a reply; the last three are no replies to a confirmation.
abbrev pub status_of : Reply → ℕ
status_of (executed_ok tx_uuid) = 200
status_of uncertain_reply = 202
status_of (no_account message) = 400
status_of (unknown_operation message) = 400
status_of kill_switch = 403
status_of already_resolved = 404
status_of (wallbit_rejected error) = 502
status_of operation_cancelled = 200
status_of unrecognised = 404
status_of nothing = 404

-- The same state, and the status that goes with the reply.
abbrev pub Agrees : HttpResponse × World → Reply × World → Type 0
Agrees r s = (r.0.http_status ≡ status_of s.0) × (r.1 ≡ s.1)

module _ (id : ℕ) (d : AgentDecision) where
  respond_executed-Agrees :
      (r : Execution × World) → Agrees (respond_executed id d r) (report id d r)
  unfolding respond_executed report
  respond_executed-Agrees (succeeded tx_uuid, w) = (refl, refl)
  respond_executed-Agrees (unanswered message, w) = (refl, refl)
  respond_executed-Agrees (rejected message, w) = (refl, refl)
  respond_executed-Agrees (unknown_tool message, w) = (refl, refl)

  confirm_with-Agrees :
      (env : Env) (w : World) (r : AccountResult)
      → Agrees (confirm_with env id d w r) (on_account env id d w r)
  unfolding confirm_with on_account confirm_on_account run_on_account
  confirm_with-Agrees env w (not_connected message) = (refl, refl)
  confirm_with-Agrees env w (found account) =
      elim (Bool-cases (not (first_is_local d.tools_called) && kill_switch_on account w.now)) [
        | inl on ↦ rw on (refl, refl)
        | inr off ↦ rw off (respond_executed-Agrees (execute_decision env id d account w))
      ]

-- Confirming a decision by the endpoint and by the button of a chat come to the same: the state
-- afterwards is the same, and the status of the response is the one that goes with the reply.
pub agent_confirm-Agrees :
    (env : Env) (user id : ℕ) (w : World)
    → Agrees (agent_confirm env user id w) (execute_confirmed_decision env user id w)
unfolding agent_confirm execute_confirmed_decision confirm_with_claimed run_claimed
agent_confirm-Agrees env user id w = elim (Option-cases (claim_pending_decision user id w)) [
  | inl gone ↦ rw (gone, agent_confirm, execute_confirmed_decision) (refl, refl)
  | inr ((d, w'), claimed) ↦
      rw (claimed, agent_confirm, execute_confirmed_decision)
        (confirm_with-Agrees id d env w' (get_account user w'))
]
