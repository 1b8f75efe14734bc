-- ===== src/Wallbit/Confirm/Replay.antt =====
-- A decision reaches the broker at most once, however often it is confirmed.
use tresqu_api.Common.{
  ℕ, ◌+◌, ◌≤◌, ◌≡◌, ◌⊎◌, inl, inr, not, ◌&&◌, none, some, arith, Option-cases, Bool-cases,
}
use tresqu_api.Common.Dict.{insert}
use tresqu_api.Wallbit.Limits.{AccountResult, found, not_connected, get_account, kill_switch_on}
use tresqu_api.Wallbit.Models.{Env, World, WallbitAccount, AgentDecision}
use tresqu_api.Wallbit.Decisions.{claim_pending_decision, get_pending_decision}
use tresqu_api.Wallbit.Decisions.Counting.{
  IsSpent, IsFresh, Steps, Steps-refl, Steps-trans, Steps-weaken, claimable_count, write_count,
  mark_failed-Steps,
}
use tresqu_api.Wallbit.Decisions.Lifecycle.{
  claim-Claimed, claim_found, get_pending-IsSpent, claimed_row,
}
use tresqu_api.Wallbit.Executors.{
  Execution, succeeded, unanswered, rejected, unknown_tool, execute_decision,
}
use tresqu_api.Wallbit.Executors.Writes.{execute_decision-Steps}
use tresqu_api.Wallbit.Confirm.{
  already_resolved, report, run_on_account, run_claimed, on_account, first_is_local,
  execute_confirmed_decision,
}

report-Steps : (id : ℕ) (d : AgentDecision) (r : Execution × World) → Steps 0 r.1 (report id d r).1
unfolding report
report-Steps id d (succeeded tx_uuid, w) = Steps-refl w
report-Steps id d (unanswered error, w) = Steps-refl w
report-Steps id d (rejected error, w) = Steps-refl w
report-Steps id d (unknown_tool message, w) = mark_failed-Steps id d w message

module _ (env : Env) (id : ℕ) (d : AgentDecision) (w : World) where
  run_on_account-Steps :
      (account : WallbitAccount) → Steps 1 w (run_on_account env id d account w).1
  unfolding run_on_account
  run_on_account-Steps account =
      elim (Bool-cases (not (first_is_local d.tools_called) && kill_switch_on account w.now)) [
        | inl on ↦ rw on (Steps-weaken (mark_failed-Steps id d w "kill_switch_active"))
        | inr off ↦ rw off (
            Steps-trans 1 0 (execute_decision-Steps env id d account w)
              (report-Steps id d (execute_decision env id d account w)))
      ]

  on_account-Steps : (r : AccountResult) → Steps 1 w (on_account env id d w r).1
  unfolding on_account
  on_account-Steps (not_connected message) = Steps-weaken (mark_failed-Steps id d w message)
  on_account-Steps (found account) = run_on_account-Steps account

  run_claimed-Steps : (user : ℕ) → Steps 1 w (run_claimed env user id (d, w)).1
  unfolding run_claimed
  run_claimed-Steps user = on_account-Steps (get_account user w)

-- What a confirmation that is not refused does.
record Ran (id : ℕ) (w w' : World) : Type 0 where
  mine : IsSpent id w'
  budget : write_count w'.log + claimable_count w' ≤ write_count w.log + claimable_count w
  kept : (j : ℕ) → IsSpent j w → IsSpent j w'
  fresh : IsFresh w → IsFresh w'

module _ (env : Env) (user id : ℕ) (w : World) where
  confirm_refused :
      get_pending_decision user id w ≡ none
      → execute_confirmed_decision env user id w ≡ (already_resolved, w)
  unfolding execute_confirmed_decision claim_pending_decision
  confirm_refused e = rw (e, execute_confirmed_decision)

  pub confirm_claimed :
      (d : AgentDecision)
      → get_pending_decision user id w ≡ some d
      → execute_confirmed_decision env user id w
        ≡ run_claimed env user id
            (claimed_row d w, record w { decisions = insert id (claimed_row d w) w.decisions })
  unfolding execute_confirmed_decision
  confirm_claimed d e = rw (claim_found user id w d e, execute_confirmed_decision)

  -- A confirmation is refused, or it takes its decision and then sends one write at most.
  confirm_effect :
      (execute_confirmed_decision env user id w ≡ (already_resolved, w))
      ⊎ Ran id w (execute_confirmed_decision env user id w).1
  confirm_effect = elim (Option-cases (get_pending_decision user id w)) [
    | inl e ↦ inl (confirm_refused e)
    | inr (d, e) ↦
        let c = claim-Claimed user id w d e in
        let s =
          run_claimed-Steps env id (claimed_row d w)
            (record w { decisions = insert id (claimed_row d w) w.decisions }) user in
        inr (
          rw (confirm_claimed d e) (record {
            mine = s.spent id c.mine;
            budget = omega (arith, s.writes, s.claims, c.taken);
            kept = λ j h. s.spent j (c.spent j h);
            fresh = λ f. s.fresh (c.fresh f);
          }))
  ]

  -- Every write to the broker uses up a decision that could be claimed: over a confirmation, the
  -- writes sent so far and the claimable decisions together do not grow.
  pub confirm_budget :
      write_count (execute_confirmed_decision env user id w).1.log
        + claimable_count (execute_confirmed_decision env user id w).1
      ≤ write_count w.log + claimable_count w
  confirm_budget = elim confirm_effect [ inl e ↦ rw e (omega arith) | inr r ↦ r.budget ]

  -- What was confirmed or resolved stays so over any confirmation.
  pub confirm-IsSpent :
      (j : ℕ) → IsSpent j w → IsSpent j (execute_confirmed_decision env user id w).1
  confirm-IsSpent j h = elim confirm_effect [ inl e ↦ rw e h | inr r ↦ r.kept j h ]

  pub confirm-IsFresh : IsFresh w → IsFresh (execute_confirmed_decision env user id w).1
  confirm-IsFresh f = elim confirm_effect [ inl e ↦ rw e f | inr r ↦ r.fresh f ]

  -- A confirmation of a decision that was confirmed or resolved before answers so and changes
  -- nothing: no request, no row, no task.
  pub confirm_replay :
      IsSpent id w → execute_confirmed_decision env user id w ≡ (already_resolved, w)
  confirm_replay h = confirm_refused (get_pending-IsSpent user id w h)

  -- A confirmation leaves its decision spent, unless it was refused and changed nothing.
  pub confirm_spends :
      (execute_confirmed_decision env user id w ≡ (already_resolved, w))
      ⊎ IsSpent id (execute_confirmed_decision env user id w).1
  confirm_spends = elim confirm_effect [ inl e ↦ inl e | inr r ↦ inr r.mine ]
