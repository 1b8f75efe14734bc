-- ===== src/Wallbit/Confirm/Outcome.antt =====
-- The reply to a confirmation says what the decision's row records (wallbit/confirmation_actions.py).
use tresqu_api.Common.{
  ℕ, ◌≡◌, ◌⊎◌, refl, inl, inr, any, str_eq, Bool, true, false, not, ◌&&◌, some, String, arith,
  Bool-cases, prefix,
}
use tresqu_api.Common.Dict.{lookup, insert, modify, lookup-modify, lookup-insert_self}
use tresqu_api.Wallbit.Limits.{AccountResult, found, not_connected, get_account, kill_switch_on}
use tresqu_api.Wallbit.Models.{
  Env, World, WallbitAccount, AgentDecision, DecisionStatus, failed, executed_status,
  uncertain_status, reconcile_decision,
}
use tresqu_api.Wallbit.Decisions.{
  get_pending_decision, claimable, executed_row, closed_row, mark_failed, error_limit, link_tx,
}
use tresqu_api.Wallbit.Decisions.Lifecycle.{claimed_row, get_pending_found}
use tresqu_api.Wallbit.Executors.{
  Execution, succeeded, unanswered, rejected, unknown_tool, reconcile_first_delay, is_linked_to,
}
use tresqu_api.Wallbit.Executors.Rows.{Recorded, IsQueued, execute_decision-Recorded}
use tresqu_api.Wallbit.Confirm.{
  Reply, already_resolved, no_account, kill_switch, unknown_operation, executed_ok, uncertain_reply,
  wallbit_rejected, operation_cancelled, unrecognised, nothing, report, run_on_account, run_claimed,
  on_account, first_is_local, execute_confirmed_decision,
}
use tresqu_api.Wallbit.Confirm.Replay.{confirm_claimed}

-- The row of `id` in the state has this status and this `executed` flag.
pub record RowIs (id : ℕ) (status : DecisionStatus) (done : Bool) (w : World) : Type 0 where
  pub row : AgentDecision
  pub at : lookup id w.decisions ≡ some row
  pub is_status : row.status ≡ status
  pub is_done : row.executed ≡ done

-- What each reply to a confirmation promises of the row, from the state `v` on.
abbrev pub Promises : World → ℕ → Reply × World → Type 0
Promises v id (executed_ok tx_uuid, w) = RowIs id executed_status true w
Promises v id (uncertain_reply, w) =
    RowIs id uncertain_status false w
    × IsQueued (reconcile_decision id reconcile_first_delay) w.queue
Promises v id (no_account message, w) = RowIs id failed false w
Promises v id (kill_switch, w) = RowIs id failed false w
Promises v id (unknown_operation message, w) = RowIs id failed false w
Promises v id (wallbit_rejected error, w) =
    RowIs id failed false w
    ⊎ ((uuid : String) × (any (is_linked_to uuid) v.investments ≡ true)
        × ((r : RowIs id failed true w) × (r.row.wallbit_tx_uuid ≡ some uuid)))
Promises v id (already_resolved, w) = ⊥
Promises v id (operation_cancelled, w) = ⊥
Promises v id (unrecognised, w) = ⊥
Promises v id (nothing, w) = ⊥

module _ (id : ℕ) (d row : AgentDecision) (w : World) (at : lookup id w.decisions ≡ some row)
    (fresh : row.executed ≡ false) where
  closed-RowIs :
      (now : ℕ) (status : DecisionStatus) (error : String) (u : World)
      → u.decisions ≡ modify id (closed_row now d status error) w.decisions
      → RowIs id status false u
  unfolding closed_row
  closed-RowIs now status error u e = record {
    row = closed_row now d status error row;
    at = rw e (lookup-modify id (closed_row now d status error) row w.decisions at);
    is_status = refl;
    is_done = fresh;
  }

  executed-RowIs :
      (now : ℕ) (uuid : String) (u : World)
      → u.decisions ≡ modify id (executed_row now d uuid) w.decisions
      → RowIs id executed_status true u
  unfolding executed_row
  executed-RowIs now uuid u e = record {
    row = executed_row now d uuid row;
    at = rw e (lookup-modify id (executed_row now d uuid) row w.decisions at);
    is_status = refl;
    is_done = refl;
  }

  -- A save of another end does not take back that the row is executed.
  closed_after-RowIs :
      (now then : ℕ) (uuid : String) (status : DecisionStatus) (error : String) (u : World)
      → str_eq uuid "" ≡ false
      → u.decisions
        ≡ modify id
            (closed_row now d status error)
            (modify id (executed_row then d uuid) w.decisions)
      → (r : RowIs id status true u) × (r.row.wallbit_tx_uuid ≡ some uuid)
  unfolding closed_row executed_row link_tx
  closed_after-RowIs now then uuid status error u named e = (
    record {
      row = closed_row now d status error (executed_row then d uuid row);
      at = rw e (
          lookup-modify id (closed_row now d status error) (executed_row then d uuid row)
            (modify id (executed_row then d uuid) w.decisions)
            (lookup-modify id (executed_row then d uuid) row w.decisions at));
      is_status = refl;
      is_done = refl;
    },
    rw named refl,
  )

  report-Promises : (r : Execution × World) → Recorded id d w r → Promises w id (report id d r)
  unfolding report mark_failed
  report-Promises (succeeded uuid, u) h = executed-RowIs w.now uuid u h
  report-Promises (unanswered error, u) h = (closed-RowIs w.now _ _ u h.0, h.1)
  report-Promises (rejected error, u) (inl h) = inl (closed-RowIs w.now _ _ u h)
  report-Promises (rejected error, u) (inr (uuid, named, linked, e)) =
      inr (uuid, linked, closed_after-RowIs w.now w.now uuid failed _ u named e)
  report-Promises (unknown_tool message, u) h =
      closed-RowIs u.now failed (prefix error_limit message) _ (rw h.rows)

  run_on_account-Promises :
      (env : Env) (account : WallbitAccount) → Promises w id (run_on_account env id d account w)
  unfolding run_on_account mark_failed
  run_on_account-Promises env account =
      elim (Bool-cases (not (first_is_local d.tools_called) && kill_switch_on account w.now)) [
        | inl on ↦
            rw on (closed-RowIs w.now failed (prefix error_limit "kill_switch_active") _ refl)
        | inr off ↦ rw off (report-Promises _ (execute_decision-Recorded id d w env account))
      ]

  on_account-Promises : (env : Env) (r : AccountResult) → Promises w id (on_account env id d w r)
  unfolding on_account mark_failed
  on_account-Promises env (not_connected message) =
      closed-RowIs w.now failed (prefix error_limit message) _ refl
  on_account-Promises env (found account) = run_on_account-Promises env account

claimable_fresh : (d : AgentDecision) → claimable d ≡ true → d.executed ≡ false
unfolding claimable
claimable_fresh d h = ground arith

-- A confirmation of a pending decision of the user ends with the row that its reply speaks of:
-- "executed" with an executed row, "uncertain" with an uncertain row that is not executed and a
-- queued reconciliation, and every other reply with a failed row. That row is not executed, unless
-- the reply is a rejection and the row is linked to a transaction that an investment was linked to
-- before: then it is executed.
pub confirm-Promises :
    (env : Env) (user id : ℕ) (w : World) (d : AgentDecision)
    → get_pending_decision user id w ≡ some d
    → Promises w id (execute_confirmed_decision env user id w)
unfolding run_claimed
confirm-Promises env user id w d e =
    let f = get_pending_found user id w d e in
    rw (confirm_claimed env user id w d e) (
      on_account-Promises id (claimed_row d w) (claimed_row d w)
        (record w { decisions = insert id (claimed_row d w) w.decisions })
        (lookup-insert_self id (claimed_row d w) w.decisions) (claimable_fresh d f.2) env
        (get_account user _))
