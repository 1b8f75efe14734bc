-- ===== src/Wallbit/Views/Closed.antt =====
-- When a confirmation by `AgentConfirmView` of wallbit/views.py sends nothing to the broker.
use tresqu_api.Common.{ℕ, ◌≡◌, refl, inl, inr, true, false, none, some, Option-cases}
use tresqu_api.Common.Dict.{insert}
use tresqu_api.Wallbit.Limits.{AccountResult, found, not_connected, get_account, kill_switch_on}
use tresqu_api.Wallbit.Models.{Env, World, AgentDecision}
use tresqu_api.Wallbit.Decisions.{claim_pending_decision, get_pending_decision, mark_failed}
use tresqu_api.Wallbit.Decisions.Lifecycle.{claim_found, claimed_row}
use tresqu_api.Wallbit.Confirm.{first_is_local}
use tresqu_api.Wallbit.Views.Decisions.{
  agent_confirm, confirm_with_claimed, confirm_on_account, confirm_with,
}

claim_none :
    (user id : ℕ) (w : World)
    → get_pending_decision user id w ≡ none
    → claim_pending_decision user id w ≡ none
unfolding claim_pending_decision
claim_none user id w e = rw (e, claim_pending_decision) refl

-- Nothing can be executed for the account that is found, if any.
abbrev pub IsClosed : ℕ → AccountResult → Type 0
IsClosed now (not_connected message) = Unit {0}
IsClosed now (found account) = kill_switch_on account now ≡ true

-- Nothing can be executed of these calls.
abbrev pub IsShut : AgentDecision → ℕ → AccountResult → Type 0
IsShut d now (not_connected message) = Unit {0}
IsShut d now (found account) =
    (first_is_local d.tools_called ≡ false) × (kill_switch_on account now ≡ true)

pub IsClosed→IsShut :
    (d : AgentDecision) (now : ℕ) (r : AccountResult)
    → first_is_local d.tools_called ≡ false
    → IsClosed now r
    → IsShut d now r
IsClosed→IsShut d now (not_connected message) remote closed = tt
IsClosed→IsShut d now (found account) remote closed = (remote, closed)

module _ (env : Env) (user id : ℕ) where
  confirm_with_shut :
      (d : AgentDecision) (w : World) (r : AccountResult)
      → IsShut d w.now r
      → (confirm_with env id d w r).1.log ≡ w.log
  unfolding confirm_with confirm_on_account mark_failed
  confirm_with_shut d w (not_connected message) shut = refl
  confirm_with_shut d w (found account) shut = rw (shut.0, shut.1) refl

  -- A confirmation of an operation at the broker sends nothing then.
  pub agent_confirm_shut :
      (w : World)
      → ((d : AgentDecision)
          → get_pending_decision user id w ≡ some d
          → IsShut (claimed_row d w) w.now (get_account user w))
      → (agent_confirm env user id w).1.log ≡ w.log
  unfolding agent_confirm confirm_with_claimed get_account
  agent_confirm_shut w shut = elim (Option-cases (get_pending_decision user id w)) [
    | inl gone ↦ rw (claim_none user id w gone, agent_confirm) refl
    | inr (d, waiting) ↦
        rw (claim_found user id w d waiting, agent_confirm)
          (confirm_with_shut (claimed_row d w)
            (record w { decisions = insert id (claimed_row d w) w.decisions }) (get_account user w)
            (shut d waiting))
  ]
