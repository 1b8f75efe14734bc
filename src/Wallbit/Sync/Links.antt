-- ===== src/Wallbit/Sync/Links.antt =====
-- No transaction is booked as two investments (wallbit/tasks.py, `_backfill_investment`).
use tresqu_api.Common.{
  ℕ, ◌+◌, ◌≤◌, ◌≡◌, refl, inl, inr, true, false, Option, none, some, List, [], ◌∷◌, String, arith,
  Bool-cases, Option-cases, any, count_if, count_if_none, count_if_some, count_if_snoc, str_eq,
  str_eq_iff, if◌then◌else◌, is_some,
}
use tresqu_api.Common.Json.{Json, truthy}
use tresqu_api.Wallbit.Models.{
  Env, World, WallbitAccount, AccountStatus, connected, revoked, error, WallbitTxMirror, Investment,
}
use tresqu_api.Wallbit.Messages.{get, page, Response}
use tresqu_api.Wallbit.Client.{idempotent}
use tresqu_api.Wallbit.Bodies.{api, crash, Try, value, threw, str_of}
use tresqu_api.Wallbit.Executors.{call_wallbit}
use tresqu_api.Wallbit.Executors.Queries.{Asked, call_wallbit-Asked}
use tresqu_api.Wallbit.Payload.{extract_transactions}
use tresqu_api.Wallbit.Sync.{
  Movement, adoptable, adopted, update_first, created, is_linked, is_linked_to, book, movement,
  backfill_investment, uuid_of, mirror_of, mirror_tx, sync_item, sync_items, save_account, ingest,
  sync_by_status, account_with_id, run_wallbit_sync,
}

-- How many investments are linked to the transaction.
abbrev pub linked_count : String → List Investment → ℕ
linked_count uuid = count_if (is_linked_to uuid)

-- Every transaction is linked to one investment at most.
abbrev pub IsLinkedOnce : List Investment → Type 0
IsLinkedOnce investments = (uuid : String) → linked_count uuid investments ≤ 1

unlinked :
    (uuid : String) (link : Option String) → is_some link ≡ false → is_linked uuid link ≡ false
unlinked uuid none h = refl
unlinked uuid (some linked) h = cc

module _ (user : ℕ) (m : Movement) (mirror : WallbitTxMirror) where
  adoptable_unlinked :
      (uuid : String) (i : Investment) → adoptable user m i ≡ true → is_linked_to uuid i ≡ false
  unfolding adoptable
  adoptable_unlinked uuid i h = ground (arith, unlinked uuid i.wallbit_tx)

  update_first_count :
      (uuid : String) (is : List Investment)
      → any (adoptable user m) is ≡ true
      → linked_count uuid (update_first (adoptable user m) (adopted m mirror) is)
        ≡ linked_count uuid is + (if str_eq mirror.wallbit_uuid uuid then 1 else 0)
  unfolding update_first adopted
  update_first_count uuid [] h = cc
  update_first_count uuid (i ∷ is) h =
      ground (arith, adoptable_unlinked uuid i, update_first_count uuid is)

  module _ (now : ℕ) (is : List Investment) where
    -- A transaction that no investment is linked to gets one, and the others keep theirs.
    book_unlinked_count :
        (uuid : String)
        → any (is_linked_to mirror.wallbit_uuid) is ≡ false
        → linked_count uuid (book user now mirror is (some m))
          ≡ linked_count uuid is + (if str_eq mirror.wallbit_uuid uuid then 1 else 0)
    unfolding book created
    book_unlinked_count uuid h = elim (Bool-cases (any (adoptable user m) is)) [
      | inl t ↦ rw (h, t, book) (update_first_count uuid is t)
      | inr f ↦ rw (h, f, book) (count_if_snoc (is_linked_to uuid) is (created user now m mirror))
    ]

    book_linked :
        any (is_linked_to mirror.wallbit_uuid) is ≡ true → book user now mirror is (some m) ≡ is
    unfolding book
    book_linked h = rw (h, book) refl

    book-some-IsLinkedOnce : IsLinkedOnce is → IsLinkedOnce (book user now mirror is (some m))
    book-some-IsLinkedOnce once uuid =
        elim (Bool-cases (any (is_linked_to mirror.wallbit_uuid) is)) [
          | inl t ↦ rw (book_linked t) (once uuid)
          | inr f ↦
              rw (book_unlinked_count uuid f) (elim (Bool-cases (str_eq mirror.wallbit_uuid uuid)) [
                | inl same ↦
                    let e = (str_eq_iff mirror.wallbit_uuid uuid).0 same in
                    let zero_count = count_if_none (is_linked_to mirror.wallbit_uuid) is f in
                    rw same (ground (arith, rw e at zero_count))
                | inr other ↦ rw other (ground (arith, once uuid))
              ])
        ]

    book-some_linked :
        IsLinkedOnce is → linked_count mirror.wallbit_uuid (book user now mirror is (some m)) ≡ 1
    book-some_linked once = elim (Bool-cases (any (is_linked_to mirror.wallbit_uuid) is)) [
      | inl t ↦ rw (book_linked t) (
          omega (
            arith,
            once mirror.wallbit_uuid,
            count_if_some (is_linked_to mirror.wallbit_uuid) is t,
          ))
      | inr f ↦
          let zero_count = count_if_none (is_linked_to mirror.wallbit_uuid) is f in
          let same = (str_eq_iff mirror.wallbit_uuid mirror.wallbit_uuid).1 refl in
          rw (book_unlinked_count mirror.wallbit_uuid f) (rw same (omega (arith, zero_count)))
    ]

book-IsLinkedOnce :
    (user now : ℕ) (mirror : WallbitTxMirror) (is : List Investment) (m : Option Movement)
    → IsLinkedOnce is
    → IsLinkedOnce (book user now mirror is m)
unfolding book
book-IsLinkedOnce user now mirror is none once = once
book-IsLinkedOnce user now mirror is (some m) once =
    book-some-IsLinkedOnce user m mirror now is once

-- Where each transaction had one investment at most, `_backfill_investment` leaves exactly one for
-- a transaction of an investment type, whether it was booked, adopted or added.
pub backfill_investment_once :
    (user : ℕ) (mirror : WallbitTxMirror) (w : World) (m : Movement)
    → IsLinkedOnce w.investments
    → movement mirror ≡ some m
    → linked_count mirror.wallbit_uuid (backfill_investment user mirror w).investments ≡ 1
unfolding backfill_investment
backfill_investment_once user mirror w m once e =
    rw e (book-some_linked user m mirror w.now w.investments once)

module _ (env : Env) (user : ℕ) (account : WallbitAccount) where
  sync_item-IsLinkedOnce :
      (tx : Json) (w : World)
      → IsLinkedOnce w.investments
      → IsLinkedOnce (sync_item env user account tx w).investments
  unfolding sync_item mirror_tx backfill_investment
  sync_item-IsLinkedOnce tx w once = elim (Option-cases (uuid_of tx)) [
    | inl e ↦ rw (e, sync_item) once
    | inr (uuid, e) ↦ elim (Bool-cases (truthy uuid)) [
      | inl t ↦
          rw (e, t, sync_item)
            (book-IsLinkedOnce user w.now (mirror_of env account w.now tx (str_of env.repr uuid))
              w.investments _ once)
      | inr f ↦ rw (e, f, sync_item) once
    ]
  ]

  sync_items-IsLinkedOnce :
      (txs : List Json) (w : World)
      → IsLinkedOnce w.investments
      → IsLinkedOnce (sync_items env user account txs w).investments
  unfolding sync_items
  sync_items-IsLinkedOnce [] w once = once
  sync_items-IsLinkedOnce (tx ∷ txs) w once =
      sync_items-IsLinkedOnce txs (sync_item env user account tx w)
        (sync_item-IsLinkedOnce tx w once)

  ingest-IsLinkedOnce :
      (r : Try Response × World)
      → IsLinkedOnce r.1.investments
      → IsLinkedOnce (ingest env user account r).1.investments
  unfolding ingest save_account
  ingest-IsLinkedOnce (threw (crash message), w) once = once
  ingest-IsLinkedOnce (threw (api e), w) once = once
  ingest-IsLinkedOnce (value response, w) once =
      sync_items-IsLinkedOnce (extract_transactions response.payload) w once

  Asked-IsLinkedOnce :
      {w w' : World} → Asked w w' → IsLinkedOnce w.investments → IsLinkedOnce w'.investments
  Asked-IsLinkedOnce a once = rw a.same once

  sync_by_status-IsLinkedOnce :
      (w : World) (s : AccountStatus)
      → IsLinkedOnce w.investments
      → IsLinkedOnce (sync_by_status env user account w s).1.investments
  unfolding sync_by_status idempotent
  sync_by_status-IsLinkedOnce w connected once =
      ingest-IsLinkedOnce (call_wallbit env account get "/transactions" (page 1 50) w) (
        Asked-IsLinkedOnce (call_wallbit-Asked env get "/transactions" (page 1 50) w refl account)
          once)
  sync_by_status-IsLinkedOnce w revoked once = once
  sync_by_status-IsLinkedOnce w error once = once

-- A sync keeps this: every mirrored transaction is linked to one investment at most.
pub run_wallbit_sync-IsLinkedOnce :
    (env : Env) (account_id : ℕ) (w : World)
    → IsLinkedOnce w.investments
    → IsLinkedOnce (run_wallbit_sync env account_id w).1.investments
unfolding run_wallbit_sync
run_wallbit_sync-IsLinkedOnce env account_id w once =
    elim (Option-cases (account_with_id account_id w.accounts)) [
      | inl e ↦ rw (e, run_wallbit_sync) once
      | inr ((user, account), e) ↦
          rw (e, run_wallbit_sync)
            (sync_by_status-IsLinkedOnce env user account w account.status once)
    ]
