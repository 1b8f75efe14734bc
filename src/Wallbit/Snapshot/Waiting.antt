-- ===== src/Wallbit/Snapshot/Waiting.antt =====
-- The loop of `get_live_snapshot` in wallbit/portfolio.py ends: each sleep lasts 0.25 s at least, so 80
-- polls use up the 20 s.
use tresqu_api.Common.{
  ℕ, zero, suc, ◌+◌, ◌*◌, ◌/◌, ◌≤◌, ◌≢◌, inl, inr, Bool, none, String, arith, ltb, Bool-cases,
  Option-cases,
}
use tresqu_api.Wallbit.Messages.{Log, Request, Outcome}
use tresqu_api.Wallbit.Models.{Decrypted, WallbitAccount}
use tresqu_api.Wallbit.Snapshot.{Formats, Shared, snapshot_poll, snapshot_wait}
use tresqu_api.Wallbit.Snapshot.Live.{after_miss, get_live_snapshot, poll, wait_until}

module _ (answer : Log → Request → Outcome) (decrypt : String → Decrypted) (formats : Formats)
    (meanwhile : Shared → Shared)
    (sleeps : (s : Shared) → s.clock + snapshot_poll ≤ (meanwhile s).clock) where
  -- Fuel for every poll that fits before the deadline, and one round more, is enough.
  wait_until_ends :
      (deadline fuel : ℕ) (require_data : Bool) (s : Shared)
      → deadline ≤ s.clock + snapshot_poll * fuel
      → wait_until formats meanwhile deadline (suc fuel) require_data s ≢ none
  unfolding wait_until
  wait_until_ends deadline zero require_data s h e = ground arith
  wait_until_ends deadline (suc fuel) require_data s h e =
      elim (Bool-cases (ltb s.clock deadline)) [
        | inr over ↦ let bad = rw (over, wait_until) at e in cc
        | inl on ↦ elim (Option-cases (poll formats require_data (meanwhile s))) [
          | inl going ↦
              wait_until_ends deadline fuel require_data (meanwhile s) (omega (arith, sleeps s))
                (rw (on, going, wait_until) at e)
          | inr (served, found) ↦ let bad = rw (on, found, wait_until) at e in cc
        ]
      ]

  -- `get_live_snapshot` always ends, with its 20 s of waiting, where each sleep lasts 0.25 s at least.
  pub get_live_snapshot_ends :
      (account : WallbitAccount) (require_data : Bool) (s : Shared)
      → get_live_snapshot answer decrypt formats meanwhile account require_data s ≢ none
  unfolding get_live_snapshot after_miss
  get_live_snapshot_ends account require_data s e = ground (
    arith,
    wait_until_ends (s.clock + snapshot_wait) (snapshot_wait / snapshot_poll) require_data s,
  )
