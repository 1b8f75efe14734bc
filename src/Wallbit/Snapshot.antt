-- ===== src/Wallbit/Snapshot.antt =====
-- wallbit/portfolio.py, lines 40 to 356: the live snapshot of an account at the broker, which all
-- workers share through a cache. The entries of one account are `SnapshotCache`; those of other
-- accounts have other keys. Times are in milliseconds. The cache's backend does not fail, and no
-- time passes while one caller fetches. A symbol that is truthy and no text, on which Python raises,
-- reads as none.
pub mod Fetch
pub mod Live
pub mod Dated
pub mod Serving
pub mod Again
pub mod Waiting
pub mod Cooldown
use Prim.Native.String
use tresqu_api.Common.{
  ℕ, zero, suc, ◌+◌, ◌*◌, ◌/◌, min, max, Bool, true, false, not, ◌&&◌, ◌||◌, Option, none, some,
  List, [], ◌∷◌, ◌++◌, String, ltb, ◌==◌, str_eq, if◌then◌else◌, upper, contains,
}
use tresqu_api.Common.Int.{ℤ, pos, leb_ℤ}
use tresqu_api.Common.Json.{
  Json, Items, Fields, null, boolean, number, text, array, object, nil, cons, end, json_get, truthy,
}
use tresqu_api.Wallbit.Messages.{
  get, empty, Log, Request, Response, Outcome, ErrorKind, rate_limit, WallbitError, Result, ok,
  raised,
}
use tresqu_api.Wallbit.Models.{Decrypted, key, undecryptable, WallbitAccount}

abbrev pub snapshot_ttl : ℕ
snapshot_ttl = 60_000

abbrev pub snapshot_lastgood_ttl : ℕ
snapshot_lastgood_ttl = 86_400_000

abbrev pub snapshot_lock_ttl : ℕ
snapshot_lock_ttl = 30_000

abbrev pub snapshot_wait : ℕ
snapshot_wait = 20_000

abbrev pub snapshot_poll : ℕ
snapshot_poll = 250

abbrev pub rate_limit_cooldown_default : ℕ
rate_limit_cooldown_default = 90_000

abbrev pub rate_limit_cooldown_max : ℕ
rate_limit_cooldown_max = 3_600_000

abbrev pub cash_symbols : List String
cash_symbols =
    "USD" ∷ "EUR" ∷ "GBP" ∷ "ARS" ∷ "BRL" ∷ "MXN" ∷ "COP" ∷ "CLP" ∷ "UYU" ∷ "PEN" ∷ "USDT" ∷ "USDC"
    ∷ []

-- Why a snapshot is a fallback_snapshot: the `reason` of a stale one.
pub data StaleReason : Type 0 where
  fresh rate_limited upstream_error in_flight_timeout : StaleReason

abbrev pub Assets : Type 0
Assets = List (String × Json)

-- What is read from the broker, in the form in which it is cached: `fetched_at` is an ISO text.
pub record Cached : Type 0 where
  pub checking : List Json
  pub positions : List Json
  pub assets : Assets
  pub fetched_at : Option String

pub record LiveSnapshot : Type 0 where
  pub checking : List Json
  pub positions : List Json
  pub assets : Assets
  pub fetched_at : Option ℕ
  pub stale : Bool
  pub reason : StaleReason

-- `has_data`
unfoldable pub has_data : LiveSnapshot → Bool
has_data snap = elim snap.fetched_at [ none ↦ false | some at ↦ true ]

-- A cache entry, which `get` returns before it expires.
pub record Entry {ℓ} (A : Type ℓ) : Type ℓ where
  pub content : A
  pub expires : ℕ

unfoldable pub cache_get {ℓ} : {A : Type ℓ} → ℕ → Option (Entry A) → Option A
cache_get now none = none
cache_get now (some entry) = if ltb now entry.expires then some entry.content else none

unfoldable pub cache_set {ℓ} : {A : Type ℓ} → ℕ → A → ℕ → Option (Entry A)
cache_set now content ttl = some (record { content = content; expires = now + ttl })

-- The keys `wb:snap`, `wb:snap:lastgood`, `wb:snap:lock` and `wb:snap:cooldown` of one account.
pub record SnapshotCache : Type 0 where
  pub live : Option (Entry Cached)
  pub lastgood : Option (Entry Cached)
  pub lock : Option (Entry (Unit {0}))
  pub cooldown : Option (Entry (Unit {0}))

-- The clock, the cache, and what the client has done.
pub record Shared : Type 0 where
  pub clock : ℕ
  pub cache : SnapshotCache
  pub sent_log : Log

-- How `get_live_snapshot` ends: by a snapshot, by `WallbitUnavailableError`, or by another exception.
pub data Served : Type 0 where
  snapshot : LiveSnapshot → Served
  unavailable : StaleReason → Served
  failure : (message : String) → Served

-- `invalidate_snapshot`
unfoldable pub invalidate_snapshot : SnapshotCache → SnapshotCache
invalidate_snapshot cache = record cache { live = none }

is_set : Option (Unit {0}) → Bool
is_set none = false
is_set (some flag) = true

-- `_cache_get(cooldown_key)`, `_cache_get(lock_key)`
unfoldable pub flag_on : ℕ → Option (Entry (Unit {0})) → Bool
unfolding is_set cache_get
flag_on now flag = is_set (cache_get now flag)

-- `[x for x in payload if isinstance(x, dict)]`
dicts : Items → List Json
dicts nil = []
dicts (cons (object fs) items) = object fs ∷ dicts items
dicts (cons item items) = dicts items

unwrap_items : Option Json → List Json
unfolding dicts
unwrap_items (some (array items)) = dicts items
unwrap_items _ = []

-- `_unwrap_list`
pub unwrap_list : Json → List Json
unfolding dicts unwrap_items
unwrap_list (array items) = dicts items
unwrap_list (object fs) = unwrap_items (json_get "data" (object fs))
unwrap_list _ = []

dict_or_empty : Json → Json
dict_or_empty (object fs) = object fs
dict_or_empty _ = object end

-- `_normalize_asset` of portfolio.py
pub normalize_payload : Json → Json
unfolding dict_or_empty
normalize_payload payload = elim (json_get "data" payload) [
  | some inner ↦ dict_or_empty inner
  | none ↦ dict_or_empty payload
]

-- `payload.get(first) or payload.get(second)`
unfoldable pub get_or_get : String → String → Json → Option Json
unfolding json_get truthy
get_or_get first second payload = elim (json_get first payload) [
  | some v ↦ if truthy v then some v else json_get second payload
  | none ↦ json_get second payload
]

-- `(payload.get(first) or payload.get(second) or "")` as a text
unfoldable pub text_of : Option Json → String
text_of (some (text s)) = s
text_of _ = ""

unfoldable pub symbol_of : Json → String
unfolding text_of
symbol_of position = upper (text_of (json_get "symbol" position))

has_asset : String → Assets → Bool
has_asset symbol [] = false
has_asset symbol ((other, asset) ∷ assets) = str_eq other symbol || has_asset symbol assets

-- `Decimal(str(value))`, in units of 10 ^ -8, and the ISO form of a time, with `fromisoformat`.
pub record Formats : Type 0 where
  pub decimal : String → Option ℤ
  pub isoformat : ℕ → String
  pub fromisoformat : String → Option ℕ

-- `_to_decimal`. No other values than texts and numbers are decimals.
unfoldable pub to_decimal : Formats → Option Json → ℤ
to_decimal formats (some (text s)) = elim (formats.decimal s) [
  | some amount ↦ amount
  | none ↦ pos 0
]
to_decimal formats (some (number s)) = elim (formats.decimal s) [
  | some amount ↦ amount
  | none ↦ pos 0
]
to_decimal formats _ = pos 0

unfoldable pub shares_of : Formats → Json → ℤ
unfolding get_or_get
shares_of formats position = to_decimal formats (get_or_get "shares" "quantity" position)

-- `not symbol or symbol in _CASH_SYMBOLS or shares <= 0`
unfoldable pub is_skipped : Formats → Json → Bool
is_skipped formats position =
    str_eq (symbol_of position) ""
    || contains cash_symbols (symbol_of position)
    || leb_ℤ (shares_of formats position) (pos 0)

-- `LiveSnapshot.to_cache`
unfoldable pub to_cache : Formats → LiveSnapshot → Cached
to_cache formats snap = record {
  checking = snap.checking;
  positions = snap.positions;
  assets = snap.assets;
  fetched_at = elim snap.fetched_at [ none ↦ none | some at ↦ some (formats.isoformat at) ];
}

read_time : Formats → Option String → Option ℕ
read_time formats none = none
read_time formats (some at) = if str_eq at "" then none else formats.fromisoformat at

-- `LiveSnapshot.from_cache`
unfoldable pub from_cache : Formats → Bool → StaleReason → Option Cached → Option LiveSnapshot
unfolding read_time
from_cache formats stale reason none = none
from_cache formats stale reason (some raw) = some (record {
  checking = raw.checking;
  positions = raw.positions;
  assets = raw.assets;
  fetched_at = read_time formats raw.fetched_at;
  stale = stale;
  reason = reason;
})
