-- ===== src/Wallbit/Sync/Effects.antt =====
-- A sync leaves the decisions alone and sends no write (wallbit/tasks.py, `run_wallbit_sync`).
use tresqu_api.Common.{ℕ, ◌≡◌, refl, inl, inr, List, [], ◌∷◌, Bool-cases, Option-cases}
use tresqu_api.Common.Json.{Json, truthy}
use tresqu_api.Wallbit.Messages.{get, page, Response}
use tresqu_api.Wallbit.Client.{idempotent}
use tresqu_api.Wallbit.Models.{
  Env, World, WallbitAccount, AccountStatus, connected, revoked, error, WallbitTxMirror,
}
use tresqu_api.Wallbit.Bodies.{api, crash, Try, value, threw}
use tresqu_api.Wallbit.Decisions.Counting.{write_count}
use tresqu_api.Wallbit.Executors.{call_wallbit}
use tresqu_api.Wallbit.Executors.Queries.{Asked, call_wallbit-Asked}
use tresqu_api.Wallbit.Payload.{extract_transactions}
use tresqu_api.Wallbit.Sync.{
  uuid_of, mirror_tx, sync_item, sync_items, save_account, ingest, sync_by_status, account_with_id,
  run_wallbit_sync, backfill_investment,
}

-- The rows that confirmation works on, the clock, the queue and the count of writes are as they were.
pub record Aside (w w' : World) : Type 0 where
  pub rows : w'.decisions ≡ w.decisions
  pub clock : w'.now ≡ w.now
  pub next : w'.next_decision ≡ w.next_decision
  pub tasks : w'.queue ≡ w.queue
  pub quiet : write_count w'.log ≡ write_count w.log

pub Aside-refl : (w : World) → Aside w w
Aside-refl w = record { rows = refl; clock = refl; next = refl; tasks = refl; quiet = refl }

Aside-trans : {u v w : World} → Aside u v → Aside v w → Aside u w
Aside-trans s t = record {
  rows = rw t.rows s.rows;
  clock = rw t.clock s.clock;
  next = rw t.next s.next;
  tasks = rw t.tasks s.tasks;
  quiet = rw t.quiet s.quiet;
}

Asked-Aside : {w w' : World} → Asked w w' → Aside w w'
Asked-Aside a =
    rw a.same (record { rows = refl; clock = refl; next = refl; tasks = refl; quiet = a.quiet })

module _ (env : Env) (user : ℕ) (account : WallbitAccount) where
  mirror_tx-Aside : (m : WallbitTxMirror) (w : World) → Aside w (mirror_tx user m w)
  unfolding mirror_tx backfill_investment
  mirror_tx-Aside m w = record {
    rows = refl;
    clock = refl;
    next = refl;
    tasks = refl;
    quiet = refl;
  }

  sync_item-Aside : (tx : Json) (w : World) → Aside w (sync_item env user account tx w)
  unfolding sync_item
  sync_item-Aside tx w = elim (Option-cases (uuid_of tx)) [
    | inl e ↦ rw (e, sync_item) (Aside-refl w)
    | inr (uuid, e) ↦ elim (Bool-cases (truthy uuid)) [
      | inl t ↦ rw (e, t, sync_item) (mirror_tx-Aside _ w)
      | inr f ↦ rw (e, f, sync_item) (Aside-refl w)
    ]
  ]

  sync_items-Aside : (txs : List Json) (w : World) → Aside w (sync_items env user account txs w)
  unfolding sync_items
  sync_items-Aside [] w = Aside-refl w
  sync_items-Aside (tx ∷ txs) w =
      Aside-trans (sync_item-Aside tx w) (sync_items-Aside txs (sync_item env user account tx w))

  save_account-Aside :
      (f : WallbitAccount → WallbitAccount) (w : World) → Aside w (save_account user f w)
  unfolding save_account
  save_account-Aside f w = record {
    rows = refl;
    clock = refl;
    next = refl;
    tasks = refl;
    quiet = refl;
  }

  ingest-Aside : (r : Try Response × World) → Aside r.1 (ingest env user account r).1
  unfolding ingest
  ingest-Aside (threw (crash message), w) = Aside-refl w
  ingest-Aside (threw (api e), w) = save_account-Aside _ w
  ingest-Aside (value response, w) =
      Aside-trans (sync_items-Aside (extract_transactions response.payload) w)
        (save_account-Aside _ _)

  asked-Aside :
      (w : World)
      → Aside w
          (ingest env user account (call_wallbit env account get "/transactions" (page 1 50) w)).1
  unfolding idempotent
  asked-Aside w =
      Aside-trans
        (Asked-Aside (call_wallbit-Asked env get "/transactions" (page 1 50) w refl account))
        (ingest-Aside (call_wallbit env account get "/transactions" (page 1 50) w))

  by_status-Aside :
      (w : World) (s : AccountStatus) → Aside w (sync_by_status env user account w s).1
  unfolding sync_by_status
  by_status-Aside w connected = asked-Aside w
  by_status-Aside w revoked = Aside-refl w
  by_status-Aside w error = Aside-refl w

pub run_wallbit_sync-Aside :
    (env : Env) (account_id : ℕ) (w : World) → Aside w (run_wallbit_sync env account_id w).1
unfolding run_wallbit_sync
run_wallbit_sync-Aside env account_id w =
    elim (Option-cases (account_with_id account_id w.accounts)) [
      | inl e ↦ rw (e, run_wallbit_sync) (Aside-refl w)
      | inr ((user, account), e) ↦
          rw (e, run_wallbit_sync) (by_status-Aside env user account w account.status)
    ]
