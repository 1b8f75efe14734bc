-- ===== src/Wallbit/Limits.antt =====
-- wallbit/agent_safety.py, lines 55 to 173: the checks made before a proposal is stored. A refusal
-- is kept by its code; the Spanish text that goes with it is not modelled.
pub mod Bounds
use tresqu_api.Common.{
  ℕ, ◌+◌, ◌*◌, ◌^◌, Bool, true, false, not, ◌&&◌, ◌||◌, Option, none, some, List, [], ◌∷◌, String,
  map, ltb, leb, ◌==◌, str_eq, if◌then◌else◌, upper, contains,
}
use tresqu_api.Common.Int.{ℤ, pos, ◌+ℤ◌, ltb_ℤ}
use tresqu_api.Common.Dict.{lookup, insert}
use tresqu_api.Wallbit.Models.{
  World, WallbitAccount, AccountStatus, connected, revoked, error, AgentLimits, Investment,
}

-- The rejections that a handler reports by a code.
pub data Code : Type 0 where
  wallbit_not_connected kill_switch_active symbol_blocked symbol_not_allowed max_trade_exceeded
        daily_cap_exceeded invalid_action symbol_required amount_invalid invalid_order_type
        limit_price_invalid limit_price_required currency_required invalid_account same_account
        amount_too_low card_uuid_required invalid_status duration_invalid not_paused :
      Code

pub record LimitsCheck : Type 0 where
  pub ok : Bool
  pub two_step_required : Bool
  pub code : Option Code

-- What `get_account_or_raise` returns, or the message of its `AccountNotConnected`.
pub data AccountResult : Type 0 where
  found : WallbitAccount → AccountResult
  not_connected : String → AccountResult

unfoldable pub by_status : WallbitAccount → AccountStatus → AccountResult
by_status account connected = found account
by_status account revoked =
    not_connected "Wallbit account is revoked, reconnect from the dashboard."
by_status account error = not_connected "Wallbit account is error, reconnect from the dashboard."

-- `get_account_or_raise`
unfoldable pub get_account : ℕ → World → AccountResult
unfolding by_status
get_account user w = elim (lookup user w.accounts) [
  | none ↦ not_connected "Wallbit account is not connected."
  | some account ↦ by_status account account.status
]

-- `account.kill_switch_until and account.kill_switch_until > now`
unfoldable pub kill_switch_on : WallbitAccount → ℕ → Bool
kill_switch_on account now = elim account.kill_switch_until [
  | none ↦ false
  | some until ↦ ltb now until
]

abbrev pub usd : ℕ → ℤ
usd n = pos (n * 10 ^ 8)

-- The defaults of the model's fields.
abbrev pub default_limits : AgentLimits
default_limits = record {
  max_trade_usd = usd 500;
  max_daily_move_usd = usd 1000;
  allowed_symbols = [];
  blocked_symbols = [];
  require_2step_above_usd = usd 200;
}

-- `_limits_for`: `get_or_create`, which may insert the default row.
unfoldable pub limits_for : ℕ → World → AgentLimits × World
limits_for user w = elim (lookup user w.limits) [
  | some limits ↦ (limits, w)
  | none ↦ (default_limits, record w { limits = insert user default_limits w.limits })
]

abbrev pub day_seconds : ℕ
day_seconds = 86400

-- `user=user, created_at__gte=now - 24h`
pub is_recent : ℕ → ℕ → Investment → Bool
is_recent user now i = i.user == user && leb now (i.created_at + day_seconds)

pub recent_total : ℕ → ℕ → List Investment → ℤ
unfolding is_recent
recent_total user now [] = pos 0
recent_total user now (i ∷ is) =
    let rest = recent_total user now is in
    if is_recent user now i then i.amount_usd +ℤ rest else rest

-- `_daily_move_total_usd`
unfoldable pub daily_move_total : ℕ → World → ℤ
unfolding recent_total
daily_move_total user w = recent_total user w.now w.investments

refuse : Code → LimitsCheck
refuse code = record { ok = false; two_step_required = false; code = some code }

-- The tests that `evaluate_trade_limits` and `evaluate_move_limits` share.
check_amount : AgentLimits → ℤ → ℤ → LimitsCheck
unfolding refuse
check_amount limits spent amount =
    if ltb_ℤ limits.max_trade_usd amount
    then refuse max_trade_exceeded
    else if ltb_ℤ limits.max_daily_move_usd (spent +ℤ amount)
    then refuse daily_cap_exceeded
    else record {
      ok = true;
      two_step_required = ltb_ℤ limits.require_2step_above_usd amount;
      code = none;
    }

is_empty : List String → Bool
is_empty [] = true
is_empty (s ∷ l) = false

check_symbol : AgentLimits → String → ℤ → ℤ → LimitsCheck
unfolding refuse check_amount is_empty
check_symbol limits symbol spent amount =
    if not (str_eq symbol "") && contains (map upper limits.blocked_symbols) symbol
    then refuse symbol_blocked
    else if not (is_empty limits.allowed_symbols)
        && not (str_eq symbol "")
        && not (contains (map upper limits.allowed_symbols) symbol)
    then refuse symbol_not_allowed
    else check_amount limits spent amount

unfoldable pub evaluate_trade_limits : ℕ → String → ℤ → World → LimitsCheck × World
unfolding check_symbol
evaluate_trade_limits user symbol amount w =
    let (limits, w') = limits_for user w in
    (check_symbol limits (upper symbol) (daily_move_total user w') amount, w')

unfoldable pub evaluate_move_limits : ℕ → ℤ → World → LimitsCheck × World
unfolding check_amount
evaluate_move_limits user amount w =
    let (limits, w') = limits_for user w in
    (check_amount limits (daily_move_total user w') amount, w')
