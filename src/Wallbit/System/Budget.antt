-- ===== src/Wallbit/System/Budget.antt =====
-- What any sequence of operations may send and confirm.
use tresqu_api.Common.{
  ℕ, suc, ◌+◌, ◌≤◌, ◌≡◌, refl, ◌⊎◌, inl, inr, none, List, [], ◌∷◌, arith, Option-cases, Bool-cases,
  ◌||◌,
}
use tresqu_api.Common.Int.{ℤ, pos, leb_ℤ, ltb_ℤ}
use tresqu_api.Common.Dict.{lookup, insert, lookup-insert, tally-insert_new}
use tresqu_api.Wallbit.Models.{Env, World, AgentDecision, Call}
use tresqu_api.Wallbit.Decisions.{claimable, get_pending_decision}
use tresqu_api.Wallbit.Decisions.Counting.{
  IsFresh, IsSpent, Steps, Steps-refl, Steps-same, write_count, claimable_count,
  mark_cancelled-Steps,
}
use tresqu_api.Wallbit.Confirm.{
  already_resolved, execute_confirmed_decision, cancel_pending_decision,
}
use tresqu_api.Wallbit.Confirm.Replay.{
  confirm_budget, confirm-IsSpent, confirm-IsFresh, confirm_replay, confirm_spends,
}
use tresqu_api.Wallbit.Sync.Effects.{run_wallbit_sync-Aside}
use tresqu_api.Wallbit.Reconcile.Writes.{Aside-Steps, reconcile-Steps}
use tresqu_api.Wallbit.Proposals.{
  Proposal, refused, proposed, Asker, pause_bot_directly, pause_max_hours,
}
use tresqu_api.Wallbit.Proposals.Stored.{Unmoved, Proposes, pending_row}
use tresqu_api.Wallbit.Proposals.Moves.{preview_move_funds-Proposes, preview_chest-Proposes}
use tresqu_api.Wallbit.Proposals.Cards.{
  preview_set_card_status-Proposes, preview_resume_bot-Proposes,
}
use tresqu_api.Wallbit.Trades.Stored.{preview_place_trade-Proposes}
use tresqu_api.Wallbit.System.{
  Operation, confirm, cancel, reconcile, sync, propose_trade, propose_move, propose_chest,
  propose_card, propose_resume, pause, wait, run, run_all,
}

-- What an operation that stores at most `n` proposals may do.
record Evolves (n : ℕ) (w w' : World) : Type 0 where
  fresh : IsFresh w'
  budget : write_count w'.log + claimable_count w' ≤ write_count w.log + claimable_count w + n
  kept : (id : ℕ) → IsSpent id w → IsSpent id w'

Steps-Evolves : {w w' : World} → Steps 0 w w' → IsFresh w → Evolves 0 w w'
Steps-Evolves s f = record {
  fresh = s.fresh f;
  budget = omega (arith, s.writes, s.claims);
  kept = s.spent;
}

module _ (asker : Asker) (w : World) (f : IsFresh w) where
  Unmoved-Evolves : {w' : World} → Unmoved w w' → Evolves 1 w w'
  Unmoved-Evolves u = record {
    fresh = λ id b. rw u.rows (f id (rw u.next at b));
    budget = rw (u.rows, u.quiet) (omega arith);
    kept = λ id s. rw u.rows s;
  }

  insert_fresh :
      (row : AgentDecision) (id : ℕ)
      → suc w.next_decision ≤ id
      → lookup id (insert w.next_decision row w.decisions) ≡ none
  insert_fresh row id b = ground (arith, lookup-insert w.next_decision id row w.decisions, f id)

  insert_kept :
      (row : AgentDecision) (id : ℕ) (w' : World)
      → w'.decisions ≡ insert w.next_decision row w.decisions
      → IsSpent id w
      → IsSpent id w'
  insert_kept row id w' e (d, at, h) =
      (d, rw e (ground (arith, lookup-insert w.next_decision id row w.decisions, f id)), h)

  Proposes-Evolves :
      (Good : Call → Type 0) (r : Proposal × World) → Proposes Good asker w r → Evolves 1 w r.1
  Proposes-Evolves Good (refused code, w') u = Unmoved-Evolves u
  Proposes-Evolves Good (proposed id two, w') (same, next, quiet, (call, good, e)) =
      let row = pending_row asker call w.now in
      record {
        fresh = λ j b. rw e (insert_fresh row j (rw next at b));
        budget =
            rw (quiet, e)
              (ground (
                arith,
                tally-insert_new claimable w.next_decision row w.decisions
                    (f w.next_decision (omega arith)),
              ));
        kept = λ j s. insert_kept row j w' e s;
      }

cancel-Steps : (user id : ℕ) (w : World) → Steps 0 w (cancel_pending_decision user id w).1
unfolding cancel_pending_decision
cancel-Steps user id w = elim (Option-cases (get_pending_decision user id w)) [
  | inl e ↦ rw (e, cancel_pending_decision) (Steps-refl w)
  | inr (d, e) ↦ rw (e, cancel_pending_decision) (mark_cancelled-Steps id d w)
]

pause-Steps : (user : ℕ) (hours : ℤ) (w : World) → Steps 0 w (pause_bot_directly user hours w).1
unfolding pause_bot_directly
pause-Steps user hours w = elim (Option-cases (lookup user w.accounts)) [
  | inl e ↦ rw (e, pause_bot_directly) (Steps-refl w)
  | inr (account, e) ↦
      elim (Bool-cases (leb_ℤ hours (pos 0) || ltb_ℤ (pos pause_max_hours) hours)) [
        | inl t ↦ rw (e, t, pause_bot_directly) (Steps-refl w)
        | inr n ↦ rw (e, n, pause_bot_directly) (Steps-same w _ refl refl refl)
      ]
]

-- How many proposals an operation may store.
abbrev pub proposals : Operation → ℕ
proposals (propose_trade asker snapshot action symbol amount order_type price tif) = 1
proposals (propose_move asker currency from_account to_account amount) = 1
proposals (propose_chest asker action robo_advisor_id amount counter_account category) = 1
proposals (propose_card asker card_uuid new_status) = 1
proposals (propose_resume asker) = 1
proposals _ = 0

abbrev pub proposal_count : List Operation → ℕ
proposal_count [] = 0
proposal_count (op ∷ ops) = proposals op + proposal_count ops

module _ (env : Env) where
  run-Evolves : (op : Operation) (w : World) → IsFresh w → Evolves (proposals op) w (run env op w)
  unfolding run
  run-Evolves (confirm user id) w f = record {
    fresh = confirm-IsFresh env user id w f;
    budget = omega (arith, confirm_budget env user id w);
    kept = λ j s. confirm-IsSpent env user id w j s;
  }
  run-Evolves (cancel user id) w f = Steps-Evolves (cancel-Steps user id w) f
  run-Evolves (reconcile retries id) w f = Steps-Evolves (reconcile-Steps env retries id w) f
  run-Evolves (sync account_id) w f =
      Steps-Evolves (Aside-Steps (run_wallbit_sync-Aside env account_id w)) f
  run-Evolves (propose_trade asker snapshot action symbol amount order_type price tif) w f =
      Proposes-Evolves asker w f _ _ (
        preview_place_trade-Proposes env asker snapshot action symbol amount order_type price tif w)
  run-Evolves (propose_move asker currency from_account to_account amount) w f =
      Proposes-Evolves asker w f _ _
        (preview_move_funds-Proposes asker w currency from_account to_account amount)
  run-Evolves (propose_chest asker action robo_advisor_id amount counter_account category) w f =
      Proposes-Evolves asker w f _ _
        (preview_chest-Proposes asker w action robo_advisor_id amount counter_account category)
  run-Evolves (propose_card asker card_uuid new_status) w f =
      Proposes-Evolves asker w f _ _ (preview_set_card_status-Proposes asker w card_uuid new_status)
  run-Evolves (propose_resume asker) w f =
      Proposes-Evolves asker w f _ _ (preview_resume_bot-Proposes asker w)
  run-Evolves (pause user hours) w f = Steps-Evolves (pause-Steps user hours w) f
  run-Evolves (wait seconds) w f = Steps-Evolves (Steps-same w _ refl refl refl) f

  run_all-Evolves :
      (ops : List Operation) (w : World)
      → IsFresh w
      → Evolves (proposal_count ops) w (run_all env ops w)
  unfolding run_all
  run_all-Evolves [] w f = Steps-Evolves (Steps-refl w) f
  run_all-Evolves (op ∷ ops) w f =
      let first = run-Evolves op w f in
      let rest = run_all-Evolves ops (run env op w) first.fresh in
      record {
        fresh = rest.fresh;
        budget = omega (arith, first.budget, rest.budget);
        kept = λ id s. rest.kept id (first.kept id s);
      }

  -- However the operations follow one another, where the table has given out its ids in order: the
  -- writes that reach the broker are at most those sent before, plus the decisions that were
  -- claimable at the start, plus the calls of tools that propose an operation.
  pub run_all_budget :
      (ops : List Operation) (w : World)
      → IsFresh w
      → write_count (run_all env ops w).log
        ≤ write_count w.log + claimable_count w + proposal_count ops
  run_all_budget ops w f = omega (arith, (run_all-Evolves ops w f).budget)

  -- Where the table has given out its ids in order: a confirmation is refused and changes nothing,
  -- or it is the last of its decision, so that after any further operations confirming that again,
  -- by anybody, is refused and changes nothing.
  pub confirm_once :
      (user id : ℕ) (w : World)
      → IsFresh w
      → (execute_confirmed_decision env user id w ≡ (already_resolved, w))
        ⊎ ((ops : List Operation) (other : ℕ)
            → execute_confirmed_decision env other id
                (run_all env ops (execute_confirmed_decision env user id w).1)
              ≡ (already_resolved, run_all env ops (execute_confirmed_decision env user id w).1))
  confirm_once user id w f = elim (confirm_spends env user id w) [
    | inl e ↦ inl e
    | inr s ↦ inr (λ ops other. confirm_replay env other id _ (
        (run_all-Evolves ops (execute_confirmed_decision env user id w).1
            (confirm-IsFresh env user id w f)).kept
          id s))
  ]
