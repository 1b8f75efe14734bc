-- ===== src/Wallbit/Snapshot/Live.antt =====
-- wallbit/portfolio.py, `get_live_snapshot`. What happens while a caller sleeps between two polls is
-- the parameter `meanwhile`: other workers run, and the clock goes on.
use tresqu_api.Common.{
  ℕ, zero, suc, ◌+◌, ◌*◌, ◌/◌, min, max, Bool, true, false, not, ◌&&◌, Option, none, some, [],
  String, ltb, if◌then◌else◌,
}
use tresqu_api.Wallbit.Messages.{Log, Request, Outcome, Result, ok, raised}
use tresqu_api.Wallbit.Client.{is_rate_limit}
use tresqu_api.Wallbit.Models.{Decrypted, key, undecryptable, WallbitAccount}
use tresqu_api.Wallbit.Snapshot.{
  Formats, LiveSnapshot, Served, Shared, SnapshotCache, StaleReason, cache_get, cache_set, failure,
  flag_on, from_cache, fresh, has_data, in_flight_timeout, rate_limit_cooldown_default,
  rate_limit_cooldown_max, rate_limited, snapshot, snapshot_lastgood_ttl, snapshot_lock_ttl,
  snapshot_poll, snapshot_ttl, snapshot_wait, to_cache, unavailable, upstream_error,
}
use tresqu_api.Wallbit.Snapshot.Fetch.{fetch_snapshot}

-- `max(int(min(exc.retry_after or 90, 3600)), 1)`, in whole seconds
unfoldable pub cooldown_seconds : Option ℕ → ℕ
cooldown_seconds none = max (min rate_limit_cooldown_default rate_limit_cooldown_max / 1000) 1
cooldown_seconds (some zero) =
    max (min rate_limit_cooldown_default rate_limit_cooldown_max / 1000) 1
cooldown_seconds (some (suc r)) = max (min (suc r) rate_limit_cooldown_max / 1000) 1

unfoldable pub empty_snapshot : StaleReason → LiveSnapshot
empty_snapshot reason = record {
  checking = [];
  positions = [];
  assets = [];
  fetched_at = none;
  stale = true;
  reason = reason;
}

-- `if snap is not None and snap.has_data`
unfoldable pub with_data : Option LiveSnapshot → Option LiveSnapshot
unfolding has_data
with_data none = none
with_data (some snap) = if has_data snap then some snap else none

-- `_finish`
unfoldable pub finish_snapshot : Bool → LiveSnapshot → Served
unfolding has_data
finish_snapshot require_data snap =
    if require_data && not (has_data snap) then unavailable snap.reason else snapshot snap

-- One round for each poll that fits before the deadline, and one to leave the loop.
abbrev pub wait_rounds : ℕ
wait_rounds = suc (snapshot_wait / snapshot_poll)

unfoldable pub take_lock : ℕ → SnapshotCache → SnapshotCache
take_lock now cache = record cache { lock = cache_set now tt snapshot_lock_ttl }

unfoldable pub release : SnapshotCache → SnapshotCache
release cache = record cache { lock = none }

unfoldable pub or_empty : StaleReason → Option LiveSnapshot → LiveSnapshot
unfolding empty_snapshot
or_empty reason none = empty_snapshot reason
or_empty reason (some snap) = snap

unfoldable pub start_cooldown : ℕ → Option ℕ → SnapshotCache → SnapshotCache
unfolding cache_set cooldown_seconds
start_cooldown now retry_after cache = record cache {
  cooldown = cache_set now tt (cooldown_seconds retry_after * 1000);
}

module _ (formats : Formats) where
  -- The live entry, where it is usable.
  unfoldable pub live_hit : ℕ → SnapshotCache → Option LiveSnapshot
  unfolding cache_get from_cache with_data
  live_hit now cache = with_data (from_cache formats false fresh (cache_get now cache.live))

  -- `_fallback_snapshot`
  unfoldable pub fallback_snapshot : ℕ → SnapshotCache → StaleReason → LiveSnapshot
  unfolding cache_get from_cache with_data or_empty
  fallback_snapshot now cache reason =
      or_empty reason (with_data (from_cache formats true reason (cache_get now cache.lastgood)))

  -- The two `_cache_set` after a fetch.
  unfoldable pub store_fresh : ℕ → LiveSnapshot → SnapshotCache → SnapshotCache
  unfolding cache_set to_cache
  store_fresh now snap cache = record cache {
    live = cache_set now (to_cache formats snap) snapshot_ttl;
    lastgood = cache_set now (to_cache formats snap) snapshot_lastgood_ttl;
  }

  -- The `try` that fetches, with its handlers and its `finally`.
  unfoldable pub settle_fetch : Bool → Shared → Result LiveSnapshot × Log → Served × Shared
  unfolding finish_snapshot fallback_snapshot store_fresh start_cooldown release is_rate_limit
  settle_fetch require_data s (ok snap, log) = (
    snapshot snap,
    record s { cache = release (store_fresh s.clock snap s.cache); sent_log = log },
  )
  settle_fetch require_data s (raised e, log) =
      if is_rate_limit e.kind
      then (
        finish_snapshot require_data (fallback_snapshot s.clock s.cache rate_limited),
        record s { cache = release (start_cooldown s.clock e.retry_after s.cache); sent_log = log },
      )
      else (
        finish_snapshot require_data (fallback_snapshot s.clock s.cache upstream_error),
        record s { cache = release s.cache; sent_log = log },
      )

  -- The tests after each sleep, in their order. `none`: the loop goes on.
  unfoldable pub poll : Bool → Shared → Option Served
  unfolding live_hit flag_on finish_snapshot fallback_snapshot
  poll require_data s = elim (live_hit s.clock s.cache) [
    | some snap ↦ some (snapshot snap)
    | none ↦
        if flag_on s.clock s.cache.cooldown
        then some (finish_snapshot require_data (fallback_snapshot s.clock s.cache rate_limited))
        else if flag_on s.clock s.cache.lock
        then none
        else some (finish_snapshot require_data (fallback_snapshot s.clock s.cache upstream_error))
  ]

  module _ (meanwhile : Shared → Shared) where
    -- `while time.monotonic() < deadline`; `none` where the fuel runs out
    unfoldable pub wait_until : ℕ → ℕ → Bool → Shared → Option (Served × Shared)
    unfolding poll finish_snapshot fallback_snapshot
    wait_until deadline zero require_data s = none
    wait_until deadline (suc fuel) require_data s = elim (ltb s.clock deadline) [
      | false ↦
          some
            (finish_snapshot require_data (fallback_snapshot s.clock s.cache in_flight_timeout), s)
      | true ↦ elim (poll require_data (meanwhile s)) [
        | some served ↦ some (served, meanwhile s)
        | none ↦ wait_until deadline fuel require_data (meanwhile s)
      ]
    ]

module _ (answer : Log → Request → Outcome) (formats : Formats) where
  unfoldable pub fetch_with_key : Bool → Shared → Decrypted → Served × Shared
  unfolding settle_fetch fetch_snapshot release
  fetch_with_key require_data s (undecryptable message) =
      (failure message, record s { cache = release s.cache })
  fetch_with_key require_data s (key api_key) =
      settle_fetch formats require_data s (fetch_snapshot answer formats s.clock api_key s.sent_log)

module _ (answer : Log → Request → Outcome) (decrypt : String → Decrypted) (formats : Formats) where
  -- What the holder of the lock does.
  unfoldable pub fetch_locked : WallbitAccount → Bool → Shared → Served × Shared
  unfolding fetch_with_key take_lock
  fetch_locked account require_data s =
      fetch_with_key answer formats require_data (record s { cache = take_lock s.clock s.cache })
        (decrypt account.encrypted_api_key)

  module _ (meanwhile : Shared → Shared) where
    -- From the cooldown test on.
    unfoldable pub after_miss : WallbitAccount → Bool → Shared → Option (Served × Shared)
    unfolding flag_on finish_snapshot fallback_snapshot fetch_locked wait_until
    after_miss account require_data s =
        if flag_on s.clock s.cache.cooldown
        then some (
          finish_snapshot require_data (fallback_snapshot formats s.clock s.cache rate_limited),
          s,
        )
        else if flag_on s.clock s.cache.lock
        then wait_until formats meanwhile (s.clock + snapshot_wait) wait_rounds require_data s
        else some (fetch_locked account require_data s)

    unfoldable pub get_live_snapshot : WallbitAccount → Bool → Shared → Option (Served × Shared)
    unfolding live_hit after_miss
    get_live_snapshot account require_data s = elim (live_hit formats s.clock s.cache) [
      | some snap ↦ some (snapshot snap, s)
      | none ↦ after_miss account require_data s
    ]
