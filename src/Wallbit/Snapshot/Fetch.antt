-- ===== src/Wallbit/Snapshot/Fetch.antt =====
-- wallbit/portfolio.py, `_fetch_snapshot`: one read of the account at the broker. It stops at the
-- first error of `/balance/stocks` and at the first 429; another failing read leaves its part empty.
use Prim.Native.String
use tresqu_api.Common.{ℕ, false, ◌||◌, some, List, [], ◌∷◌, ◌++◌, String, if◌then◌else◌}
use tresqu_api.Common.Json.{Json, object, end}
use tresqu_api.Wallbit.Messages.{get, empty, Log, Request, Response, Outcome, Result, ok, raised}
use tresqu_api.Wallbit.Client.{WallbitClient, new_client, default_attempts, send, is_rate_limit}
use tresqu_api.Wallbit.Snapshot.{
  Assets, Formats, LiveSnapshot, fresh, has_asset, is_skipped, normalize_payload, symbol_of,
  unwrap_list,
}

module _ {ℓ κ} {A : Type ℓ} {B : Type κ} where
  -- The step after a read, unless that raised.
  abbrev pub and_then : Result A × Log → (A → Log → Result B × Log) → Result B × Log
  and_then (ok v, log) k = k v log
  and_then (raised e, log) k = (raised e, log)

-- `response.data`, put through `read`
abbrev pub read_payload {ℓ} : {A : Type ℓ} → (Json → A) → Result Response × Log → Result A × Log
read_payload read (ok response, log) = (ok (read response.payload), log)
read_payload read (raised e, log) = (raised e, log)

-- `except WallbitRateLimitError: raise` and `except WallbitError`, which gives `default`
abbrev pub degrade {ℓ} : {A : Type ℓ} → A → Result A × Log → Result A × Log
degrade default (ok v, log) = (ok v, log)
degrade default (raised e, log) =
    if is_rate_limit e.kind then (raised e, log) else (ok default, log)

module _ (answer : Log → Request → Outcome) (formats : Formats) where
  pub read_list : WallbitClient → String → Log → Result (List Json) × Log
  unfolding send unwrap_list
  read_list client path log = read_payload unwrap_list (send answer client get path empty log)

  read_asset : WallbitClient → String → Log → Result Json × Log
  unfolding send normalize_payload is_rate_limit
  read_asset client symbol log = degrade (object end) (
      read_payload normalize_payload
        (send answer client get (String.◌++◌ "/assets/" symbol) empty log))

  -- One round of `for pos in positions`.
  asset_round : WallbitClient → Json → Assets → Log → Result Assets × Log
  unfolding read_asset has_asset is_skipped
  asset_round client position assets log =
      if is_skipped formats position || has_asset (symbol_of position) assets
      then (ok assets, log)
      else and_then (read_asset client (symbol_of position) log)
          λ asset log'. (ok (assets ++ (symbol_of position, asset) ∷ []), log')

  pub fetch_assets : WallbitClient → List Json → Assets → Log → Result Assets × Log
  unfolding asset_round
  fetch_assets client [] assets log = (ok assets, log)
  fetch_assets client (position ∷ positions) assets log =
      and_then (asset_round client position assets log) (fetch_assets client positions)

  -- The parts of `_fetch_snapshot` after each read.
  unfoldable pub with_assets : ℕ → List Json → List Json → Assets → Log → Result LiveSnapshot × Log
  with_assets now positions checking assets log =
      let snap : LiveSnapshot = record {
        checking = checking;
        positions = positions;
        assets = assets;
        fetched_at = some now;
        stale = false;
        reason = fresh;
      } in
      (ok snap, log)

  unfoldable pub with_checking :
      ℕ → WallbitClient → List Json → List Json → Log → Result LiveSnapshot × Log
  unfolding fetch_assets with_assets
  with_checking now client positions checking log =
      and_then (fetch_assets client positions [] log) (with_assets now positions checking)

  unfoldable pub with_positions : ℕ → WallbitClient → List Json → Log → Result LiveSnapshot × Log
  unfolding read_list with_checking is_rate_limit
  with_positions now client positions log =
      and_then (degrade [] (read_list client "/balance/checking" log))
        (with_checking now client positions)

  unfoldable pub read_account : ℕ → WallbitClient → Log → Result LiveSnapshot × Log
  unfolding read_list with_positions
  read_account now client log =
      and_then (read_list client "/balance/stocks" log) (with_positions now client)

  unfoldable pub fetch_with_client : ℕ → Result WallbitClient → Log → Result LiveSnapshot × Log
  unfolding read_account
  fetch_with_client now (raised e) log = (raised e, log)
  fetch_with_client now (ok client) log = read_account now client log

  unfoldable pub fetch_snapshot : ℕ → String → Log → Result LiveSnapshot × Log
  unfolding fetch_with_client new_client
  fetch_snapshot now api_key log =
      fetch_with_client now (new_client api_key default_attempts false) log
