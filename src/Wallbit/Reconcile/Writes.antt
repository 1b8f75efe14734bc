-- ===== src/Wallbit/Reconcile/Writes.antt =====
-- The reconciliation resends nothing (wallbit/tasks.py, `reconcile_uncertain_decision`).
use tresqu_api.Common.{
  ℕ, ◌-◌, refl, inl, inr, Option, none, some, arith, Bool-cases, Option-cases, ltb,
}
use tresqu_api.Common.Dict.{lookup}
use tresqu_api.Wallbit.Models.{Env, World, WallbitAccount, WallbitTxMirror, AgentDecision}
use tresqu_api.Wallbit.Decisions.Counting.{
  Steps, Steps-refl, Steps-trans, Steps-same, mark_executed-Steps, mark_failed-Steps,
}
use tresqu_api.Wallbit.Sync.{
  SyncResult, synced, account_missing, account_unusable, upstream_failed, sync_crashed,
  run_wallbit_sync,
}
use tresqu_api.Wallbit.Sync.Effects.{Aside, run_wallbit_sync-Aside}
use tresqu_api.Wallbit.Reconcile.{
  note, give_up, conclude_search, search_raises, search_sync, after_sync, is_uncertain,
  is_card_call, settle_uncertain, reconcile_uncertain_decision, reconcile_max_attempts,
}

pub Aside-Steps : {w w' : World} → Aside w w' → Steps 0 w w'
Aside-Steps a = record {
  writes = rw a.quiet (omega arith);
  claims = rw a.rows (omega arith);
  spent = λ id s. rw a.rows s;
  fresh = λ f id b. rw a.rows (f id (rw a.next at b));
}

module _ (env : Env) (retries id : ℕ) (d : AgentDecision) where
  give_up-Steps : (u : World) → Steps 0 u (give_up id d u).1
  unfolding give_up note
  give_up-Steps u = elim (Bool-cases (is_card_call d.tools_called)) [
    | inl t ↦ rw t (Steps-trans 0 0 (mark_failed-Steps id d u _) (Steps-same _ _ refl refl refl))
    | inr f ↦ rw f (Steps-trans 0 0 (mark_failed-Steps id d u _) (Steps-same _ _ refl refl refl))
  ]

  conclude_search-Steps :
      (found : Option WallbitTxMirror) (u : World)
      → Steps 0 u (conclude_search retries id d found u).1
  unfolding conclude_search note
  conclude_search-Steps (some tx) u =
      Steps-trans 0 0 (mark_executed-Steps id d u tx.wallbit_uuid) (Steps-same _ _ refl refl refl)
  conclude_search-Steps none u = elim (Bool-cases (ltb retries (reconcile_max_attempts - 1))) [
    | inl t ↦ rw t (Steps-same _ _ refl refl refl)
    | inr f ↦ rw f (give_up-Steps u)
  ]

  search_sync-Steps :
      (account : WallbitAccount) (u : World) → Steps 0 u (search_sync env retries id d account u).1
  unfolding search_sync
  search_sync-Steps account u = elim (Bool-cases (search_raises env id d account u)) [
    | inl t ↦ rw t (Steps-refl u)
    | inr f ↦ rw f (conclude_search-Steps _ u)
  ]

  after_sync-Steps :
      (account : WallbitAccount) (r : SyncResult × World)
      → Steps 0 r.1 (after_sync env retries id d account r).1
  unfolding after_sync
  after_sync-Steps account (sync_crashed message, u) = Steps-refl u
  after_sync-Steps account (synced, u) = search_sync-Steps account u
  after_sync-Steps account (account_missing, u) = search_sync-Steps account u
  after_sync-Steps account (account_unusable s, u) = search_sync-Steps account u
  after_sync-Steps account (upstream_failed message, u) = search_sync-Steps account u

  settle_uncertain-Steps : (w : World) → Steps 0 w (settle_uncertain env retries id d w).1
  unfolding settle_uncertain
  settle_uncertain-Steps w = elim (Option-cases (lookup d.user w.accounts)) [
    | inl e ↦ rw (e, settle_uncertain) (mark_failed-Steps id d w _)
    | inr (account, e) ↦
        rw (e, settle_uncertain)
          (Steps-trans 0 0 (Aside-Steps (run_wallbit_sync-Aside env account.id w))
            (after_sync-Steps account (run_wallbit_sync env account.id w)))
  ]

-- The reconciliation sends no write to the broker, makes no decision claimable, and leaves
-- confirmed what was confirmed.
pub reconcile-Steps :
    (env : Env) (retries id : ℕ) (w : World)
    → Steps 0 w (reconcile_uncertain_decision env retries id w).1
unfolding reconcile_uncertain_decision
reconcile-Steps env retries id w = elim (Option-cases (lookup id w.decisions)) [
  | inl e ↦ rw (e, reconcile_uncertain_decision) (Steps-refl w)
  | inr (d, e) ↦ elim (Bool-cases (is_uncertain d.status)) [
    | inl t ↦ rw (e, t, reconcile_uncertain_decision) (settle_uncertain-Steps env retries id d w)
    | inr f ↦ rw (e, f, reconcile_uncertain_decision) (Steps-refl w)
  ]
]
