-- ===== src/Wallbit/Reconcile/Settled.antt =====
-- What the reconciliation of an uncertain decision leaves behind (wallbit/tasks.py,
-- `reconcile_uncertain_decision`).
use tresqu_api.Common.{
  ℕ, ◌-◌, ◌<◌, ◌≡◌, refl, sym, inl, inr, true, Option, none, some, String, arith, Bool-cases,
  Option-cases, ltb, prefix,
}
use tresqu_api.Common.Dict.{Dict, lookup, lookup-modify}
use tresqu_api.Wallbit.Models.{
  Env, World, WallbitAccount, WallbitTxMirror, AgentDecision, failed, uncertain_status,
  reconcile_decision,
}
use tresqu_api.Wallbit.Decisions.{executed_row, closed_row, mark_executed, mark_failed, error_limit}
use tresqu_api.Wallbit.Executors.Rows.{IsQueued}
use tresqu_api.Wallbit.Sync.{
  SyncResult, synced, account_missing, account_unusable, upstream_failed, sync_crashed,
  run_wallbit_sync,
}
use tresqu_api.Wallbit.Sync.Effects.{Aside, Aside-refl, run_wallbit_sync-Aside}
use tresqu_api.Wallbit.Reconcile.{
  Settlement, skipped, missing_account, settled_executed, retried, settled_unverifiable,
  settled_not_executed, crashed, note, give_up, conclude_search, search_raises, search_sync,
  after_sync, is_uncertain, settle_uncertain, reconcile_uncertain_decision, find_transaction,
  reconcile_max_attempts, reconcile_retry_seconds, is_card_call,
}
use tresqu_api.Wallbit.Reconcile.Match.{Matched, find_transaction-Matched}

-- The row of the decision is `d` with the status FAILED, not executed anew.
abbrev pub IsFailed : ℕ → AgentDecision → World → Dict AgentDecision → Type 0
IsFailed id d w rows =
    (error : String) × (lookup id rows
      ≡ some (closed_row w.now d failed (prefix error_limit error) d))

-- What each end of the task promises of an uncertain decision `d`.
abbrev pub Settles : Env → ℕ → ℕ → AgentDecision → World → Settlement × World → Type 0
Settles env retries id d w (skipped, w') = ⊥
Settles env retries id d w (missing_account, w') = IsFailed id d w w'.decisions
Settles env retries id d w (settled_executed uuid, w') =
    (lookup id w'.decisions ≡ some (executed_row w.now d uuid d))
    × ((account : WallbitAccount) × (tx : WallbitTxMirror) × (tx.wallbit_uuid ≡ uuid)
        × (lookup d.user w.accounts ≡ some account)
        × (find_transaction env id d account (run_wallbit_sync env account.id w).1 ≡ some tx)
        × Matched env id d account (run_wallbit_sync env account.id w).1 tx)
Settles env retries id d w (retried, w') =
    (w'.decisions ≡ w.decisions)
    × IsQueued (reconcile_decision id reconcile_retry_seconds) w'.queue
    × (retries < reconcile_max_attempts - 1)
Settles env retries id d w (settled_unverifiable, w') = IsFailed id d w w'.decisions
Settles env retries id d w (settled_not_executed, w') = IsFailed id d w w'.decisions
Settles env retries id d w (crashed message, w') = w'.decisions ≡ w.decisions

module _ (id : ℕ) (d : AgentDecision) (w : World) (at : lookup id w.decisions ≡ some d) where
  mark_failed-IsFailed :
      (error : String) (u : World)
      → Aside w u
      → IsFailed id d w (mark_failed id d error u).decisions
  unfolding mark_failed
  mark_failed-IsFailed error u a = (
    error,
    rw (a.rows, a.clock)
        (lookup-modify id (closed_row w.now d failed (prefix error_limit error)) d w.decisions at),
  )

  executed_at :
      (uuid : String) (u : World)
      → Aside w u
      → lookup id (mark_executed id d uuid u).decisions ≡ some (executed_row w.now d uuid d)
  unfolding mark_executed
  executed_at uuid u a =
      rw (a.rows, a.clock) (lookup-modify id (executed_row w.now d uuid) d w.decisions at)

  module _ (env : Env) (retries : ℕ) where
    give_up-Settles : (u : World) → Aside w u → Settles env retries id d w (give_up id d u)
    unfolding give_up note
    give_up-Settles u a = elim (Bool-cases (is_card_call d.tools_called)) [
      | inl t ↦ rw t (mark_failed-IsFailed _ u a)
      | inr f ↦ rw f (mark_failed-IsFailed _ u a)
    ]

    module _ (account : WallbitAccount) (owner : lookup d.user w.accounts ≡ some account) where
      conclude_search-Settles :
          (u : World) (found : Option WallbitTxMirror)
          → Aside w u
          → (run_wallbit_sync env account.id w).1 ≡ u
          → found ≡ find_transaction env id d account u
          → Settles env retries id d w (conclude_search retries id d found u)
      unfolding conclude_search note
      conclude_search-Settles u (some tx) a s e = (
        executed_at tx.wallbit_uuid u a,
        (
          account,
          tx,
          refl,
          owner,
          rw s (sym e),
          rw s (find_transaction-Matched env id d account u tx (sym e)).0,
        ),
      )
      conclude_search-Settles u none a s e =
          elim (Bool-cases (ltb retries (reconcile_max_attempts - 1))) [
            | inl t ↦ rw t (a.rows, inl refl, ground arith)
            | inr f ↦ rw f (give_up-Settles u a)
          ]

      search_sync-Settles :
          (u : World)
          → Aside w u
          → (run_wallbit_sync env account.id w).1 ≡ u
          → Settles env retries id d w (search_sync env retries id d account u)
      unfolding search_sync
      search_sync-Settles u a now = elim (Bool-cases (search_raises env id d account u)) [
        | inl t ↦ rw t a.rows
        | inr f ↦ rw f (conclude_search-Settles u (find_transaction env id d account u) a now refl)
      ]

      after_sync-Settles :
          (r : SyncResult × World)
          → Aside w r.1
          → (run_wallbit_sync env account.id w).1 ≡ r.1
          → Settles env retries id d w (after_sync env retries id d account r)
      unfolding after_sync
      after_sync-Settles (sync_crashed message, u) a now = a.rows
      after_sync-Settles (synced, u) a now = search_sync-Settles u a now
      after_sync-Settles (account_missing, u) a now = search_sync-Settles u a now
      after_sync-Settles (account_unusable s, u) a now = search_sync-Settles u a now
      after_sync-Settles (upstream_failed message, u) a now = search_sync-Settles u a now

    settle_uncertain-Settles : Settles env retries id d w (settle_uncertain env retries id d w)
    unfolding settle_uncertain
    settle_uncertain-Settles = elim (Option-cases (lookup d.user w.accounts)) [
      | inl e ↦ rw (e, settle_uncertain) (mark_failed-IsFailed _ w (Aside-refl w))
      | inr (account, e) ↦
          rw (e, settle_uncertain)
            (after_sync-Settles account e (run_wallbit_sync env account.id w)
              (run_wallbit_sync-Aside env account.id w) refl)
    ]

-- A run of the task on an uncertain decision ends in one of these ways. It marks the decision executed
-- and links it to a transaction that the search finds among those mirrored after the sync: one of the
-- account of the decision's user, which matches the decision, and which no other decision has if its
-- uuid is not empty. It marks the decision failed. It retries, only before its third retry, with the
-- row as it was. Or an exception leaves the row as it was.
pub reconcile-Settles :
    (env : Env) (retries id : ℕ) (w : World) (d : AgentDecision)
    → lookup id w.decisions ≡ some d
    → d.status ≡ uncertain_status
    → Settles env retries id d w (reconcile_uncertain_decision env retries id w)
unfolding reconcile_uncertain_decision is_uncertain
reconcile-Settles env retries id w d at s =
    let u : is_uncertain d.status ≡ true = rw s refl in
    rw (at, u, reconcile_uncertain_decision) (settle_uncertain-Settles id d w at env retries)
