-- ===== src/Wallbit/Snapshot/Dated.antt =====
-- A snapshot that `_fetch_snapshot` of wallbit/portfolio.py returns is dated, and not stale.
use tresqu_api.Common.{ℕ, ◌≡◌, refl, Bool, false, some, List, []}
use tresqu_api.Common.Json.{Json}
use tresqu_api.Wallbit.Messages.{Log, Request, Outcome, Result, ok, raised}
use tresqu_api.Wallbit.Client.{WallbitClient}
use tresqu_api.Wallbit.Snapshot.{Formats, LiveSnapshot, StaleReason, fresh}
use tresqu_api.Wallbit.Snapshot.Fetch.{
  fetch_with_client, read_account, and_then, degrade, fetch_assets, read_list, with_positions,
  with_checking, with_assets,
}

abbrev pub HasLabel : Bool → StaleReason → LiveSnapshot → Type 0
HasLabel stale reason snap = (snap.stale ≡ stale) × (snap.reason ≡ reason)

abbrev pub IsRead : ℕ → LiveSnapshot → Type 0
IsRead now snap = (snap.fetched_at ≡ some now) × HasLabel false fresh snap

abbrev pub ReadsAt : ℕ → Result LiveSnapshot × Log → Type 0
ReadsAt now (ok snap, log) = IsRead now snap
ReadsAt now (raised e, log) = Unit {0}

and_then-ReadsAt {ℓ} :
    {A : Type ℓ} (now : ℕ) (m : Result A × Log) (k : A → Log → Result LiveSnapshot × Log)
    → ((a : A) (log : Log) → ReadsAt now (k a log))
    → ReadsAt now (and_then m k)
and_then-ReadsAt now (ok a, log) k h = h a log
and_then-ReadsAt now (raised e, log) k h = tt

module _ (answer : Log → Request → Outcome) (formats : Formats) (now : ℕ) where
  with_positions-ReadsAt :
      (client : WallbitClient) (positions : List Json) (log : Log)
      → ReadsAt now (with_positions answer formats now client positions log)
  unfolding with_positions with_checking with_assets
  with_positions-ReadsAt client positions log =
      and_then-ReadsAt now (degrade [] (read_list answer formats client "/balance/checking" log)) _
        λ checking log'.
          and_then-ReadsAt now (fetch_assets answer formats client positions [] log') _
            λ assets log''. (refl, (refl, refl))

  -- A snapshot that was read is dated, and not stale.
  pub fetch_with_client-ReadsAt :
      (made : Result WallbitClient) (log : Log)
      → ReadsAt now (fetch_with_client answer formats now made log)
  unfolding fetch_with_client read_account
  fetch_with_client-ReadsAt (raised e) log = tt
  fetch_with_client-ReadsAt (ok client) log =
      and_then-ReadsAt now (read_list answer formats client "/balance/stocks" log)
        (with_positions answer formats now client) (with_positions-ReadsAt client)
