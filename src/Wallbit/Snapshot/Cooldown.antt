-- ===== src/Wallbit/Snapshot/Cooldown.antt =====
-- What the cache of wallbit/portfolio.py spares the broker: after a 429 nothing is sent until the
-- cooldown is over, and what was read is served again for a minute.
use tresqu_api.Common.{
  ℕ, zero, suc, ◌+◌, ◌*◌, ◌≤◌, ◌<◌, ◌≡◌, refl, ap, ◌∙◌, inl, inr, Bool, true, Option, none, some,
  List, [], ◌∷◌, ◌++◌, String, arith, Option-cases,
}
use tresqu_api.Wallbit.Messages.{Log, Request, Outcome, WallbitError, raised}
use tresqu_api.Wallbit.Client.{is_rate_limit}
use tresqu_api.Wallbit.Models.{Decrypted, key, WallbitAccount}
use tresqu_api.Wallbit.Snapshot.{Formats, Served, Shared, cache_set, flag_on, invalidate_snapshot}
use tresqu_api.Wallbit.Snapshot.Fetch.{fetch_snapshot}
use tresqu_api.Wallbit.Snapshot.Live.{
  after_miss, cooldown_seconds, fetch_locked, fetch_with_key, get_live_snapshot, live_hit, release,
  settle_fetch, start_cooldown, take_lock,
}

-- What the workers do with the account: a caller asks for the snapshot, with the key that is stored
-- then; time passes; or other code sends requests, as the sync and the executors do, and the endpoint
-- that stores another key and then invalidates the snapshot.
pub data Visit : Type 0 where
  ask : (encrypted_api_key : String) (require_data : Bool) → Visit
  pass : (milliseconds : ℕ) → Visit
  elsewhere : (requests : Log) → Visit
  reconnect : (requests : Log) → Visit

cooldown_seconds_bounds : (r : Option ℕ) → (1 ≤ cooldown_seconds r) × (cooldown_seconds r ≤ 3600)
unfolding cooldown_seconds
cooldown_seconds_bounds none = omega arith
cooldown_seconds_bounds (some zero) = omega arith
cooldown_seconds_bounds (some (suc r)) = ground arith

-- The time that the operations let pass.
abbrev pub elapsed : List Visit → ℕ
elapsed [] = 0
elapsed (pass milliseconds ∷ operations) = milliseconds + elapsed operations
elapsed (_ ∷ operations) = elapsed operations

-- The log after what the other code sent.
abbrev pub sent_elsewhere : List Visit → Log → Log
sent_elsewhere [] log = log
sent_elsewhere (elsewhere requests ∷ operations) log = sent_elsewhere operations (requests ++ log)
sent_elsewhere (reconnect requests ∷ operations) log = sent_elsewhere operations (requests ++ log)
sent_elsewhere (_ ∷ operations) log = sent_elsewhere operations log

module _ (answer : Log → Request → Outcome) (decrypt : String → Decrypted) (formats : Formats)
    (meanwhile : Shared → Shared) (account : WallbitAccount) where
  after : Shared → Option (Served × Shared) → Shared
  after s none = s
  after s (some (served, s')) = s'

  pub run : Visit → Shared → Shared
  unfolding get_live_snapshot after invalidate_snapshot
  run (ask encrypted_api_key require_data) s = after s (
      get_live_snapshot answer decrypt formats meanwhile
        (record account { encrypted_api_key = encrypted_api_key }) require_data s)
  run (pass milliseconds) s = record s { clock = s.clock + milliseconds }
  run (elsewhere requests) s = record s { sent_log = requests ++ s.sent_log }
  run (reconnect requests) s = record s {
    cache = invalidate_snapshot s.cache;
    sent_log = requests ++ s.sent_log;
  }

  pub run_all : List Visit → Shared → Shared
  unfolding run
  run_all [] s = s
  run_all (operation ∷ operations) s = run_all operations (run operation s)

  -- The entry of a cooldown that ends at `until`.
  abbrev CoolsUntil : ℕ → Shared → Type 0
  CoolsUntil until s = s.cache.cooldown ≡ some (record { content = tt; expires = until })

  flag_on-CoolsUntil :
      (until : ℕ) (s : Shared)
      → CoolsUntil until s
      → s.clock < until
      → flag_on s.clock s.cache.cooldown ≡ true
  unfolding flag_on
  flag_on-CoolsUntil until s c h = rw c (ground arith)

  -- Nobody is let through during the cooldown.
  ask_quiet :
      (until : ℕ) (stored : String) (require_data : Bool) (s : Shared)
      → CoolsUntil until s
      → s.clock < until
      → run (ask stored require_data) s ≡ s
  unfolding run get_live_snapshot after_miss after
  ask_quiet until stored require_data s c h =
      elim (Option-cases (live_hit formats s.clock s.cache)) [
        | inr (snap, hit) ↦ rw (hit, get_live_snapshot) refl
        | inl miss ↦ rw (miss, get_live_snapshot, flag_on-CoolsUntil until s c h) refl
      ]

  run_all_quiet :
      (until : ℕ) (operations : List Visit) (s : Shared)
      → CoolsUntil until s
      → s.clock + elapsed operations < until
      → (run_all operations s).sent_log ≡ sent_elsewhere operations s.sent_log
  unfolding run_all
  run_all_quiet until [] s c h = refl
  run_all_quiet until (ask stored require_data ∷ operations) s c h =
      ap (λ t. (run_all operations t).sent_log)
        (ask_quiet until stored require_data s c (omega arith))
      ∙ run_all_quiet until operations s c h
  run_all_quiet until (pass milliseconds ∷ operations) s c h =
      run_all_quiet until operations (record s { clock = s.clock + milliseconds }) c (omega arith)
  run_all_quiet until (elsewhere requests ∷ operations) s c h =
      run_all_quiet until operations (record s { sent_log = requests ++ s.sent_log }) c h
  run_all_quiet until (reconnect requests ∷ operations) s c h =
      run_all_quiet until operations
        (record s { cache = invalidate_snapshot s.cache; sent_log = requests ++ s.sent_log }) c h

  settle_fetch-CoolsUntil :
      (require_data : Bool) (s : Shared) (e : WallbitError) (log : Log)
      → is_rate_limit e.kind ≡ true
      → CoolsUntil
          (s.clock + cooldown_seconds e.retry_after * 1000)
          (settle_fetch formats require_data s (raised e, log)).1
  unfolding settle_fetch start_cooldown cache_set release
  settle_fetch-CoolsUntil require_data s e log limited = rw limited refl

  -- What a fetch that the broker refused by a 429 leaves behind.
  fetch_locked_limited :
      (require_data : Bool) (s : Shared) (api_key : String) (e : WallbitError) (log : Log)
      → decrypt account.encrypted_api_key ≡ key api_key
      → fetch_snapshot answer formats s.clock api_key s.sent_log ≡ (raised e, log)
      → is_rate_limit e.kind ≡ true
      → CoolsUntil
          (s.clock + cooldown_seconds e.retry_after * 1000)
          (fetch_locked answer decrypt formats account require_data s).1
  unfolding fetch_locked fetch_with_key take_lock
  fetch_locked_limited require_data s api_key e log opened refused limited =
      rw (opened, fetch_with_key, refused)
        (settle_fetch-CoolsUntil require_data (record s { cache = take_lock s.clock s.cache }) e log
          limited)

  fetch_locked_log :
      (require_data : Bool) (s : Shared) (api_key : String) (e : WallbitError) (log : Log)
      → decrypt account.encrypted_api_key ≡ key api_key
      → fetch_snapshot answer formats s.clock api_key s.sent_log ≡ (raised e, log)
      → is_rate_limit e.kind ≡ true
      → ((fetch_locked answer decrypt formats account require_data s).1.sent_log ≡ log)
        × ((fetch_locked answer decrypt formats account require_data s).1.clock ≡ s.clock)
  unfolding fetch_locked fetch_with_key take_lock settle_fetch release
  fetch_locked_log require_data s api_key e log opened refused limited =
      rw (opened, fetch_with_key, refused, limited) (refl, refl)

  -- After a fetch that the broker refuses by a 429, those who ask for the snapshot of the account send
  -- nothing until the cooldown of that error has passed, which is of one second at least and of one
  -- hour at most: whatever other code sends meanwhile, and though a new key is stored, the log grows
  -- by the requests of that other code alone.
  pub cooldown_silences :
      (require_data : Bool) (s : Shared) (api_key : String) (e : WallbitError) (log : Log)
      → decrypt account.encrypted_api_key ≡ key api_key
      → fetch_snapshot answer formats s.clock api_key s.sent_log ≡ (raised e, log)
      → is_rate_limit e.kind ≡ true
      → (1 ≤ cooldown_seconds e.retry_after)
        × (cooldown_seconds e.retry_after ≤ 3600)
        × ((operations : List Visit)
            → elapsed operations < cooldown_seconds e.retry_after * 1000
            → (run_all operations
                (fetch_locked answer decrypt formats account require_data s).1).sent_log
              ≡ sent_elsewhere operations log)
  cooldown_silences require_data s api_key e log opened refused limited =
      let (same_log, same_clock) =
        fetch_locked_log require_data s api_key e log opened refused limited in
      (
        (cooldown_seconds_bounds e.retry_after).0,
        (cooldown_seconds_bounds e.retry_after).1,
        λ operations h.
            run_all_quiet (s.clock + cooldown_seconds e.retry_after * 1000) operations
              (fetch_locked answer decrypt formats account require_data s).1
              (fetch_locked_limited require_data s api_key e log opened refused limited)
              (rw same_clock (omega arith))
            ∙ ap (λ l. sent_elsewhere operations l) same_log,
      )
