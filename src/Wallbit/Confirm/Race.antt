-- ===== src/Wallbit/Confirm/Race.antt =====
-- Two handlers on one decision. A claim is one step under the row lock, but
-- `cancel_pending_decision` reads the row and saves it later, with no lock: `mark_cancelled` may be
-- run in a state that another handler has changed since `get_pending_decision`.
use mathlib.Core.Path.{subst}
use tresqu_api.Common.{
  ℕ, ◌≡◌, refl, sym, ap, ◌∙◌, inl, inr, Option-cases, true, Option, none, some, String, arith,
}
use tresqu_api.Common.Dict.{insert, lookup-modify}
use tresqu_api.Wallbit.Models.{Env, World, AgentDecision, cancelled, executed_status}
use tresqu_api.Wallbit.Decisions.{get_pending_decision, mark_cancelled, closed_row}
use tresqu_api.Wallbit.Decisions.Lifecycle.{claim_found, claimed_row, claim-Claimed, claim-IsSpent}
use tresqu_api.Wallbit.Decisions.{claim_pending_decision}
use tresqu_api.Wallbit.Confirm.{executed_ok, execute_confirmed_decision}
use tresqu_api.Wallbit.Confirm.Outcome.{RowIs, Promises, confirm-Promises}

not_claimed :
    (user id : ℕ) (w : World) (d : AgentDecision) (u : World)
    → get_pending_decision user id w ≡ none
    → claim_pending_decision user id w ≡ some (d, u)
    → ⊥
unfolding claim_pending_decision
not_claimed user id w d u e h = ground arith

abbrev state_of : World → Option (AgentDecision × World) → World
state_of w none = w
state_of w (some p) = p.1

-- Of two claims of one decision, in either order and by whatever users, at most one succeeds.
pub claim_exclusive :
    (user other id : ℕ) (w u : World) (d : AgentDecision)
    → claim_pending_decision user id w ≡ some (d, u)
    → claim_pending_decision other id u ≡ none
claim_exclusive user other id w u d h = elim (Option-cases (get_pending_decision user id w)) [
  | inl e ↦ absurd (not_claimed user id w d u e h)
  | inr (row, e) ↦
      let same : u ≡ record w { decisions = insert id (claimed_row row w) w.decisions } =
        ap (state_of w) (sym h ∙ claim_found user id w row e) in
      claim-IsSpent other id u (rw same (claim-Claimed user id w row e).mine)
]

-- A cancellation that read the decision before a confirmation executed it, and saves after, marks an
-- executed operation as cancelled.
pub cancel_overwrites :
    (env : Env) (user id : ℕ) (w : World) (d : AgentDecision) (tx_uuid : String)
    → get_pending_decision user id w ≡ some d
    → (execute_confirmed_decision env user id w).0 ≡ executed_ok tx_uuid
    → RowIs id cancelled true (mark_cancelled id d (execute_confirmed_decision env user id w).1)
unfolding mark_cancelled closed_row
cancel_overwrites env user id w d tx_uuid e r =
    let u = (execute_confirmed_decision env user id w).1 in
    let was : RowIs id executed_status true u =
      subst (λ reply. Promises w id (reply, u)) r (confirm-Promises env user id w d e) in
    let f = closed_row u.now d cancelled "cancelled_by_user" in
    record {
      row = f was.row;
      at = lookup-modify id f was.row u.decisions was.at;
      is_status = refl;
      is_done = was.is_done;
    }
