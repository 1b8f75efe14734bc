-- ===== src/Wallbit/Snapshot/Serving.antt =====
-- What `get_live_snapshot` of wallbit/portfolio.py serves.
use tresqu_api.Common.{
  ℕ, zero, suc, ◌+◌, ◌≡◌, ◌≢◌, ◌↔◌, inl, inr, Bool, true, false, Option, none, some, subst, ap,
  some_inj, String, arith, ltb, Bool-cases, Option-cases,
}
use tresqu_api.Wallbit.Messages.{Log, Request, Outcome, Result, ok, raised}
use tresqu_api.Wallbit.Client.{new_client, default_attempts, is_rate_limit}
use tresqu_api.Wallbit.Models.{Decrypted, key, undecryptable, WallbitAccount}
use tresqu_api.Wallbit.Snapshot.{
  Cached, Formats, LiveSnapshot, Served, Shared, SnapshotCache, StaleReason, cache_get, failure,
  flag_on, from_cache, fresh, has_data, in_flight_timeout, rate_limited, snapshot, snapshot_wait,
  unavailable, upstream_error,
}
use tresqu_api.Wallbit.Snapshot.Fetch.{fetch_snapshot}
use tresqu_api.Wallbit.Snapshot.Dated.{HasLabel, ReadsAt, fetch_with_client-ReadsAt}
use tresqu_api.Wallbit.Snapshot.Live.{
  after_miss, empty_snapshot, fallback_snapshot, fetch_locked, fetch_with_key, finish_snapshot,
  get_live_snapshot, live_hit, or_empty, poll, settle_fetch, wait_rounds, wait_until, with_data,
  take_lock,
}

-- A snapshot that carries data, and is marked stale exactly if it gives a reason for being so.
abbrev pub IsLabelled : LiveSnapshot → Type 0
IsLabelled snap = (has_data snap ≡ true) × ((snap.stale ≡ true) ↔ (snap.reason ≢ fresh))

-- What a caller that requires data may be told.
abbrev pub IsHonest : Served → Type 0
IsHonest (snapshot snap) = IsLabelled snap
IsHonest (unavailable reason) = reason ≢ fresh
IsHonest (failure message) = Unit {0}

pub with_data-some :
    (o : Option LiveSnapshot) (snap : LiveSnapshot)
    → with_data o ≡ some snap
    → (o ≡ some snap) × (has_data snap ≡ true)
unfolding with_data has_data
with_data-some none snap e = cc
with_data-some (some found) snap e = ground arith

module _ (formats : Formats) where
  from_cache-HasLabel :
      (stale : Bool) (reason : StaleReason) (raw : Option Cached) (snap : LiveSnapshot)
      → from_cache formats stale reason raw ≡ some snap
      → HasLabel stale reason snap
  unfolding from_cache
  from_cache-HasLabel stale reason none snap e = cc
  from_cache-HasLabel stale reason (some raw) snap e = ground arith

  live_hit-IsLabelled :
      (now : ℕ) (cache : SnapshotCache) (snap : LiveSnapshot)
      → live_hit formats now cache ≡ some snap
      → IsLabelled snap
  unfolding live_hit
  live_hit-IsLabelled now cache snap e =
      let f = with_data-some (from_cache formats false fresh (cache_get now cache.live)) snap e in
      ground (arith, from_cache-HasLabel false fresh (cache_get now cache.live) snap f.0)

  -- A fallback_snapshot without data is refused, one with data is marked.
  or_empty-IsHonest :
      (reason : StaleReason) (o : Option LiveSnapshot)
      → reason ≢ fresh
      → ((snap : LiveSnapshot) → o ≡ some snap → HasLabel true reason snap)
      → IsHonest (finish_snapshot true (or_empty reason (with_data o)))
  unfolding finish_snapshot empty_snapshot or_empty with_data has_data
  or_empty-IsHonest reason none n h = n
  or_empty-IsHonest reason (some snap) n h = ground (arith, h snap)

  fallback_snapshot-IsHonest :
      (now : ℕ) (cache : SnapshotCache) (reason : StaleReason)
      → reason ≢ fresh
      → IsHonest (finish_snapshot true (fallback_snapshot formats now cache reason))
  unfolding fallback_snapshot
  fallback_snapshot-IsHonest now cache reason n =
      or_empty-IsHonest reason (from_cache formats true reason (cache_get now cache.lastgood)) n
        (from_cache-HasLabel true reason (cache_get now cache.lastgood))

module _ (answer : Log → Request → Outcome) (formats : Formats) where
  settle_fetch-IsHonest :
      (s : Shared) (r : Result LiveSnapshot × Log)
      → ReadsAt s.clock r
      → IsHonest (settle_fetch formats true s r).0
  unfolding settle_fetch has_data
  settle_fetch-IsHonest s (ok snap, log) h = ground arith
  settle_fetch-IsHonest s (raised e, log) h = elim (Bool-cases (is_rate_limit e.kind)) [
    | inl limited ↦
        rw limited (fallback_snapshot-IsHonest formats s.clock s.cache rate_limited (λ p. cc))
    | inr other ↦
        rw other (fallback_snapshot-IsHonest formats s.clock s.cache upstream_error (λ p. cc))
  ]

  fetch_with_key-IsHonest :
      (s : Shared) (k : Decrypted) → IsHonest (fetch_with_key answer formats true s k).0
  unfolding fetch_with_key fetch_snapshot
  fetch_with_key-IsHonest s (undecryptable message) = tt
  fetch_with_key-IsHonest s (key api_key) = settle_fetch-IsHonest s _ (
      fetch_with_client-ReadsAt answer formats s.clock (new_client api_key default_attempts false)
        s.sent_log)

abbrev Ends : Option (Served × Shared) → Type 0
Ends none = Unit {0}
Ends (some (served, s)) = IsHonest served

abbrev Answers : Option Served → Type 0
Answers none = Unit {0}
Answers (some served) = IsHonest served

Answers-some : (o : Option Served) (served : Served) → Answers o → o ≡ some served → IsHonest served
Answers-some none served h e = cc
Answers-some (some other) served h e = subst IsHonest (some_inj e) h

-- The answer of a run that ends so.
Ends-some :
    (run : Option (Served × Shared)) (served : Served) (s : Shared)
    → Ends run
    → run ≡ some (served, s)
    → IsHonest served
Ends-some none served s h e = cc
Ends-some (some (other, s')) served s h e = subst IsHonest (ap (λ r. r.0) (some_inj e)) h

module _ (formats : Formats) (meanwhile : Shared → Shared) where
  poll-Answers : (s : Shared) → Answers (poll formats true s)
  unfolding poll
  poll-Answers s = elim (Option-cases (live_hit formats s.clock s.cache)) [
    | inr (snap, hit) ↦ rw (hit, poll) (live_hit-IsLabelled formats s.clock s.cache snap hit)
    | inl miss ↦ elim (Bool-cases (flag_on s.clock s.cache.cooldown)) [
      | inl cooling ↦
          rw (miss, cooling, poll)
            (fallback_snapshot-IsHonest formats s.clock s.cache rate_limited (λ p. cc))
      | inr calm ↦ elim (Bool-cases (flag_on s.clock s.cache.lock)) [
        | inl busy ↦ rw (miss, calm, busy, poll) tt
        | inr idle ↦
            rw (miss, calm, idle, poll)
              (fallback_snapshot-IsHonest formats s.clock s.cache upstream_error (λ p. cc))
      ]
    ]
  ]

  wait_until-Ends :
      (deadline fuel : ℕ) (s : Shared) → Ends (wait_until formats meanwhile deadline fuel true s)
  unfolding wait_until
  wait_until-Ends deadline zero s = tt
  wait_until-Ends deadline (suc fuel) s = elim (Bool-cases (ltb s.clock deadline)) [
    | inr over ↦
        rw (over, wait_until)
          (fallback_snapshot-IsHonest formats s.clock s.cache in_flight_timeout (λ p. cc))
    | inl on ↦ elim (Option-cases (poll formats true (meanwhile s))) [
      | inl going ↦ rw (on, going, wait_until) (wait_until-Ends deadline fuel (meanwhile s))
      | inr (served, found) ↦
          rw (on, found, wait_until) (Answers-some _ served (poll-Answers (meanwhile s)) found)
    ]
  ]

module _ (answer : Log → Request → Outcome) (decrypt : String → Decrypted) (formats : Formats)
    (meanwhile : Shared → Shared) (account : WallbitAccount) where
  after_miss-Ends : (s : Shared) → Ends (after_miss answer decrypt formats meanwhile account true s)
  unfolding after_miss fetch_locked
  after_miss-Ends s = elim (Bool-cases (flag_on s.clock s.cache.cooldown)) [
    | inl cooling ↦
        rw cooling (fallback_snapshot-IsHonest formats s.clock s.cache rate_limited (λ p. cc))
    | inr calm ↦ elim (Bool-cases (flag_on s.clock s.cache.lock)) [
      | inl busy ↦
          rw (calm, busy)
            (wait_until-Ends formats meanwhile (s.clock + snapshot_wait) wait_rounds s)
      | inr idle ↦
          rw (calm, idle)
            (fetch_with_key-IsHonest answer formats (record s { cache = take_lock s.clock s.cache })
              (decrypt account.encrypted_api_key))
    ]
  ]

  get_live_snapshot-Ends :
      (s : Shared) → Ends (get_live_snapshot answer decrypt formats meanwhile account true s)
  unfolding get_live_snapshot
  get_live_snapshot-Ends s = elim (Option-cases (live_hit formats s.clock s.cache)) [
    | inl miss ↦ rw (miss, get_live_snapshot) (after_miss-Ends s)
    | inr (snap, hit) ↦
        rw (hit, get_live_snapshot) (live_hit-IsLabelled formats s.clock s.cache snap hit)
  ]

  -- A caller that requires data gets no snapshot without data, and one that is marked stale exactly
  -- if it says why; where there is nothing to serve it is told a reason.
  pub get_live_snapshot-IsHonest :
      (s s' : Shared) (served : Served)
      → get_live_snapshot answer decrypt formats meanwhile account true s ≡ some (served, s')
      → IsHonest served
  get_live_snapshot-IsHonest s s' served e = Ends-some _ served s' (get_live_snapshot-Ends s) e
