-- ===== src/Wallbit/Snapshot/Again.antt =====
-- What was fetched is served again, while it is fresh (wallbit/portfolio.py).
use tresqu_api.Common.{
  ℕ, ◌+◌, ◌<◌, ◌≡◌, ◌≢◌, refl, Bool, true, false, some, subst, String, arith, ltb, str_eq,
  str_eq_iff,
}
use tresqu_api.Wallbit.Messages.{Log, Request, Outcome, ok}
use tresqu_api.Wallbit.Client.{new_client, default_attempts}
use tresqu_api.Wallbit.Models.{Decrypted, key, WallbitAccount}
use tresqu_api.Wallbit.Snapshot.{
  Formats, LiveSnapshot, Shared, SnapshotCache, cache_get, cache_set, from_cache, fresh, has_data,
  read_time, snapshot, snapshot_ttl, to_cache,
}
use tresqu_api.Wallbit.Snapshot.Fetch.{fetch_snapshot}
use tresqu_api.Wallbit.Snapshot.Live.{
  fetch_locked, fetch_with_key, get_live_snapshot, live_hit, settle_fetch, store_fresh, with_data,
  release,
}
use tresqu_api.Wallbit.Snapshot.Dated.{IsRead, ReadsAt, fetch_with_client-ReadsAt}

module _ (formats : Formats) where
  from_cache-to_cache :
      (snap : LiveSnapshot) (now : ℕ)
      → ((t : ℕ) → formats.fromisoformat (formats.isoformat t) ≡ some t)
      → ((t : ℕ) → formats.isoformat t ≢ "")
      → IsRead now snap
      → with_data (from_cache formats false fresh (some (to_cache formats snap))) ≡ some snap
  unfolding from_cache to_cache read_time with_data has_data
  from_cache-to_cache snap now back full read =
      let shown : str_eq (formats.isoformat now) "" ≡ false =
        ground (arith, full now, str_eq_iff (formats.isoformat now) "") in
      rw (read.0, shown, back now) (ground arith)

  stored_hit :
      (snap : LiveSnapshot) (cache : SnapshotCache) (now later : ℕ)
      → ((t : ℕ) → formats.fromisoformat (formats.isoformat t) ≡ some t)
      → ((t : ℕ) → formats.isoformat t ≢ "")
      → IsRead now snap
      → cache.live ≡ cache_set now (to_cache formats snap) snapshot_ttl
      → later < now + snapshot_ttl
      → live_hit formats later cache ≡ some snap
  unfolding live_hit cache_get cache_set
  stored_hit snap cache now later back full read stored soon =
      let fresh_yet : ltb later (now + snapshot_ttl) ≡ true = ground arith in
      rw (stored, cache_get, fresh_yet) (from_cache-to_cache snap now back full read)

module _ (answer : Log → Request → Outcome) (decrypt : String → Decrypted) (formats : Formats)
    (meanwhile : Shared → Shared)
    (back : (t : ℕ) → formats.fromisoformat (formats.isoformat t) ≡ some t)
    (full : (t : ℕ) → formats.isoformat t ≢ "") where
  fetch_snapshot-IsRead :
      (now : ℕ) (api_key : String) (log log' : Log) (snap : LiveSnapshot)
      → fetch_snapshot answer formats now api_key log ≡ (ok snap, log')
      → IsRead now snap
  unfolding fetch_snapshot
  fetch_snapshot-IsRead now api_key log log' snap e =
      subst (ReadsAt now) e (
        fetch_with_client-ReadsAt answer formats now (new_client api_key default_attempts false)
          log)

  served_hit :
      (account : WallbitAccount) (require_data : Bool) (s : Shared) (snap : LiveSnapshot)
      → live_hit formats s.clock s.cache ≡ some snap
      → get_live_snapshot answer decrypt formats meanwhile account require_data s
        ≡ some (snapshot snap, s)
  unfolding get_live_snapshot
  served_hit account require_data s snap hit = rw (hit, get_live_snapshot) refl

  -- A snapshot that was fetched is served again as it is, with no request, to every caller who asks
  -- for the account within the next minute, whichever key is stored then, where times are read back from their ISO form.
  pub fetched_again :
      (account : WallbitAccount) (stored : String) (require_data require_data' : Bool) (s : Shared)
      (api_key : String) (snap : LiveSnapshot) (log : Log) (later : ℕ)
      → decrypt account.encrypted_api_key ≡ key api_key
      → fetch_snapshot answer formats s.clock api_key s.sent_log ≡ (ok snap, log)
      → later < s.clock + snapshot_ttl
      → (s' : Shared) × (fetch_locked answer decrypt formats account require_data s
          ≡ (snapshot snap, s'))
        × (get_live_snapshot answer decrypt formats meanwhile
              (record account { encrypted_api_key = stored })
              require_data'
              (record s' { clock = later })
            ≡ some (snapshot snap, record s' { clock = later }))
        × (s'.sent_log ≡ log)
  unfolding fetch_locked fetch_with_key settle_fetch store_fresh release
  fetched_again account stored require_data require_data' s api_key snap log later opened read
        soon =
      let dated = fetch_snapshot-IsRead s.clock api_key s.sent_log log snap read in
      rw (opened, fetch_with_key, read)
        (
          _,
          refl,
          served_hit (record account { encrypted_api_key = stored }) require_data' _ snap
              (stored_hit formats snap _ s.clock later back full dated refl soon),
          refl,
        )
