-- ===== src/Wallbit/Trades.antt =====
-- wallbit/write_tools.py, `_fetch_asset_meta` and `_preview_place_trade`, with the risk gate of
-- wallbit/agent_safety.py. The snapshot of the effective profile is an argument: `none` is a profile
-- that could not be read. Previews and warnings, which are texts, are left out.
pub mod Stored
use tresqu_api.Common.{
  ℕ, ◌/◌, Bool, true, false, not, ◌&&◌, ◌||◌, Option, none, some, String, [], ◌∷◌, str_eq,
  if◌then◌else◌, upper, lower, strip, contains, has_part,
}
use Prim.Native.String
use tresqu_api.Common.Int.{ℤ, pos, negsuc, ltb_ℤ}
use tresqu_api.Common.Json.{Json, null, object, json_get, truthy}
use tresqu_api.Wallbit.Messages.{get, empty, Response}
use tresqu_api.Wallbit.Models.{
  Env, World, WallbitAccount, TradeArgs, place_trade, Tolerance, conservative, moderate, aggressive,
  unknown, Snapshot, GateNote,
}
use tresqu_api.Wallbit.Limits.{
  invalid_action, symbol_required, amount_invalid, invalid_order_type, limit_price_invalid,
  limit_price_required, LimitsCheck, limits_for, evaluate_trade_limits,
}
use tresqu_api.Wallbit.Bodies.{Try, value, threw, or_default, quantize, str_of}
use tresqu_api.Wallbit.Executors.{call_wallbit}
use tresqu_api.Wallbit.Proposals.{
  Proposal, refused, Asker, is_positive, store, Access, granted, denied, access,
}

-- `RiskGate`, without its warning
pub record RiskGate : Type 0 where
  pub pass_through : Bool
  pub extra_two_step : Bool
  pub snapshot : Option Snapshot

passes : Option Snapshot → RiskGate
passes snapshot = record { pass_through = true; extra_two_step = false; snapshot = snapshot }

stops : Snapshot → RiskGate
stops snapshot = record { pass_through = false; extra_two_step = true; snapshot = some snapshot }

-- `(max_trade_usd * Decimal("0.5")).quantize(Decimal("0.01"))`; stored amounts have whole cents.
friction_threshold : ℤ → ℤ
friction_threshold (pos n) = quantize (pos (n / 2))
friction_threshold (negsuc n) = quantize (negsuc (n / 2))

gate_by_tolerance : ℕ → ℤ → World → Snapshot → Tolerance → RiskGate × World
unfolding passes stops friction_threshold
gate_by_tolerance user amount w snapshot aggressive = (passes (some snapshot), w)
gate_by_tolerance user amount w snapshot conservative = (stops snapshot, w)
gate_by_tolerance user amount w snapshot moderate =
    let (limits, w') = limits_for user w in
    (
      (if ltb_ℤ amount (friction_threshold limits.max_trade_usd)
          then passes (some snapshot)
          else stops snapshot),
      w',
    )
gate_by_tolerance user amount w snapshot unknown = (passes (some snapshot), w)

-- `evaluate_risk_profile_gate`
unfoldable pub evaluate_risk_profile_gate :
    ℕ → String → ℤ → Option Snapshot → World → RiskGate × World
unfolding passes gate_by_tolerance
evaluate_risk_profile_gate user action amount none w = (passes none, w)
evaluate_risk_profile_gate user action amount (some snapshot) w =
    if not (str_eq (upper action) "BUY")
    then (passes none, w)
    else gate_by_tolerance user amount w snapshot snapshot.tolerance

-- `str(data.get("name") or "")`
name_of : (Json → String) → Option Json → String
name_of repr none = ""
name_of repr (some v) = if truthy v then str_of repr v else ""

price_of : Env → Option Json → Option ℤ
price_of env none = none
price_of env (some null) = none
price_of env (some v) = env.decimal_of (str_of env.repr v)

meta_of : Env → Option Json → Option ℤ × Bool
unfolding name_of price_of
meta_of env (some (object fs)) = (
  price_of env (json_get "price" (object fs)),
  has_part "only limit orders" (lower (name_of env.repr (json_get "name" (object fs)))),
)
meta_of env _ = (none, false)

read_meta : Env → Try Response × World → (Option ℤ × Bool) × World
unfolding meta_of
read_meta env (threw e, w) = ((none, false), w)
read_meta env (value response, w) = (meta_of env (json_get "data" response.payload), w)

-- `_fetch_asset_meta`
pub fetch_asset_meta : Env → WallbitAccount → String → World → (Option ℤ × Bool) × World
unfolding read_meta
fetch_asset_meta env account symbol w =
    read_meta env (call_wallbit env account get (String.◌++◌ "/assets/" symbol) empty w)

-- `tif_norm`
tif_of : String → String
tif_of time_in_force =
    let norm = or_default (some time_in_force) "DAY" in
    if contains ("DAY" ∷ "GTC" ∷ []) norm then norm else "DAY"

-- What `_preview_place_trade` has settled before it looks at the account. A limit price makes the
-- order a LIMIT order.
pub record Order : Type 0 where
  pub action : String
  pub symbol : String
  pub amount : ℤ
  pub is_limit : Bool
  pub limit_price : Option ℤ
  pub time_in_force : String

note_of : RiskGate → Option GateNote
note_of gate = elim gate.snapshot [
  | none ↦ none
  | some snapshot ↦ some (record {
    pass_through = gate.pass_through;
    extra_two_step = gate.extra_two_step;
    snapshot = snapshot;
  })
]

trade_args : Order → Bool → Option ℤ → RiskGate → TradeArgs
unfolding note_of tif_of
trade_args order is_limit price gate = record {
  action = order.action;
  symbol = order.symbol;
  amount_usd = order.amount;
  currency = none;
  order_type = some (if is_limit then "LIMIT" else "MARKET");
  limit_price = (if is_limit then price else none);
  time_in_force = (if is_limit then some (tif_of order.time_in_force) else none);
  risk_gate = note_of gate;
}

-- The gate and the stored proposal.
store_gated : Asker → Order → Bool → Option ℤ → LimitsCheck → RiskGate × World → Proposal × World
unfolding trade_args store
store_gated asker order is_limit price check (gate, w) =
    store asker (place_trade (trade_args order is_limit price gate))
      (check.two_step_required || gate.extra_two_step) w

-- `limit_dec is None or limit_dec <= 0`
pub lacks_price : Option ℤ → Bool
unfolding is_positive
lacks_price none = true
lacks_price (some price) = not (is_positive price)

-- `if limit_dec is None: limit_dec = current_price`
limit_or : Option ℤ → Option ℤ → Option ℤ
limit_or (some price) current = some price
limit_or none current = current

priced :
    Asker → Option Snapshot → Order → LimitsCheck → (Option ℤ × Bool) × World → Proposal × World
unfolding store_gated lacks_price limit_or evaluate_risk_profile_gate
priced asker snapshot order check ((current, limit_only), w) =
    let is_limit = order.is_limit || limit_only in
    let price = limit_or order.limit_price current in
    if is_limit && lacks_price price
    then (refused (some limit_price_required), w)
    else store_gated asker order is_limit price check
        (evaluate_risk_profile_gate asker.user order.action order.amount snapshot w)

checked :
    Env → Asker → Option Snapshot → WallbitAccount → Order → LimitsCheck × World → Proposal × World
unfolding priced fetch_asset_meta
checked env asker snapshot account order (check, w) =
    if check.ok
    then priced asker snapshot order check (fetch_asset_meta env account order.symbol w)
    else (refused check.code, w)

trade_by_access : Env → Asker → Option Snapshot → Order → World → Access → Proposal × World
unfolding checked evaluate_trade_limits
trade_by_access env asker snapshot order w (denied code) = (refused (some code), w)
trade_by_access env asker snapshot order w (granted account) =
    checked env asker snapshot account order
      (evaluate_trade_limits asker.user order.symbol order.amount w)

-- `limit_dec <= 0` of a price that was given
bad_price : Option ℤ → Bool
unfolding is_positive
bad_price none = false
bad_price (some price) = not (is_positive price)

has_price : Option ℤ → Bool
has_price none = false
has_price (some price) = true

-- The normalised arguments of `_preview_place_trade`.
pub order_for : String → String → ℤ → String → Option ℤ → String → Order
unfolding has_price
order_for action symbol amount order_type limit_price time_in_force = record {
  action = upper action;
  symbol = strip (upper symbol);
  amount = amount;
  is_limit = has_price limit_price || str_eq (or_default (some order_type) "MARKET") "LIMIT";
  limit_price = limit_price;
  time_in_force = time_in_force;
}

-- `_preview_place_trade`
unfoldable pub preview_place_trade :
    Env
    → Asker
    → Option Snapshot
    → String
    → String
    → ℤ
    → String
    → Option ℤ
    → String
    → World
    → Proposal × World
unfolding trade_by_access bad_price order_for access
preview_place_trade env asker snapshot action symbol amount order_type limit_price time_in_force w =
    let order = order_for action symbol amount order_type limit_price time_in_force in
    if not (contains ("BUY" ∷ "SELL" ∷ []) order.action)
    then (refused (some invalid_action), w)
    else if str_eq order.symbol ""
    then (refused (some symbol_required), w)
    else if not (is_positive amount)
    then (refused (some amount_invalid), w)
    else if not (contains ("MARKET" ∷ "LIMIT" ∷ []) (or_default (some order_type) "MARKET"))
    then (refused (some invalid_order_type), w)
    else if bad_price limit_price
    then (refused (some limit_price_invalid), w)
    else trade_by_access env asker snapshot order w (access asker.user w)
