-- ===== src/Wallbit/Bodies.antt =====
-- wallbit/executors.py: what the executors send and read, and their exceptions.
use Prim.Native.String
use tresqu_api.Common.{
  ℕ, ◌+◌, ◌*◌, ◌/◌, ◌^◌, Bool, true, false, Option, none, some, List, [], ◌∷◌, String, zero, suc,
  ◌==◌, str_eq, if◌then◌else◌, upper, ◌%◌, ltb, ◌||◌, ◌&&◌,
}
use tresqu_api.Common.Int.{ℤ, pos, negsuc, pos_part, leb_ℤ}
use tresqu_api.Common.Json.{Json, null, boolean, number, text, array, object, json_get, truthy}
use tresqu_api.Wallbit.Messages.{Body, market_order, limit_order, validation, WallbitError}
use tresqu_api.Wallbit.Models.{TradeArgs}

-- An exception that leaves an executor: a `WallbitError`, or any other with its `str`.
pub data Exception : Type 0 where
  api : WallbitError → Exception
  crash : String → Exception

pub data Try {ℓ} (A : Type ℓ) : Type ℓ where
  value : A → Try A
  threw : Exception → Try A

-- `args.get(key) or default`, in upper case
unfoldable pub or_default : Option String → String → String
or_default none d = upper d
or_default (some s) d = if str_eq s "" then upper d else upper s

-- `str(data[key])`
pub str_of : (Json → String) → Json → String
str_of repr null = "None"
str_of repr (boolean true) = "True"
str_of repr (boolean false) = "False"
str_of repr (number n) = n
str_of repr (text s) = s
str_of repr (array js) = repr (array js)
str_of repr (object fs) = repr (object fs)

-- The first truthy value among the keys.
first_key : (Json → String) → List String → Json → String
unfolding str_of
first_key repr [] payload = ""
first_key repr (k ∷ ks) payload =
    let rest = first_key repr ks payload in
    elim (json_get k payload) [ none ↦ rest | some v ↦ if truthy v then str_of repr v else rest ]

abbrev pub uuid_keys : List String
uuid_keys = "uuid" ∷ "id" ∷ "tx_uuid" ∷ "transaction_id" ∷ []

-- `_extract_tx_uuid`: of a value that is no dict every key is missing.
unfoldable pub extract_tx_uuid : (Json → String) → Json → String
unfolding first_key
extract_tx_uuid repr payload = elim (json_get "data" payload) [
  | none ↦ first_key repr uuid_keys payload
  | some inner ↦ first_key repr uuid_keys inner
]

negate : ℕ → ℤ
negate zero = pos 0
negate (suc n) = negsuc n

is_zero : ℤ → Bool
is_zero (pos n) = n == 0
is_zero (negsuc n) = false

-- `(amount / price).quantize(Decimal("0.0001"), rounding=ROUND_DOWN)` in units of 10 ^ -4, toward
-- zero. `none` is a division by zero.
unfoldable pub shares_for : ℤ → ℤ → Option ℤ
unfolding negate
shares_for (pos a) (pos p) = if p == 0 then none else some (pos (a * 10 ^ 4 / p))
shares_for (pos a) (negsuc p) = some (negate (a * 10 ^ 4 / (p + 1)))
shares_for (negsuc a) (pos p) = if p == 0 then none else some (negate ((a + 1) * 10 ^ 4 / p))
shares_for (negsuc a) (negsuc p) = some (pos ((a + 1) * 10 ^ 4 / (p + 1)))

-- `amount.quantize(Decimal("0.01"))` of a magnitude: to the nearest cent, a tie to the even one.
nearest_cent : ℕ → ℕ
nearest_cent n =
    let cents = n / 10 ^ 6 in
    let rest = n % 10 ^ 6 in
    if ltb rest 500000 || (rest == 500000 && cents % 2 == 0)
    then cents * 10 ^ 6
    else (cents + 1) * 10 ^ 6

pub quantize : ℤ → ℤ
unfolding nearest_cent negate
quantize (pos n) = pos (nearest_cent n)
quantize (negsuc n) = negate (nearest_cent (n + 1))

validation_error : String → Exception
validation_error message =
    api (record { kind = validation; message = message; status = none; retry_after = none })

limit_message : (ℤ → String) → ℤ → String → ℤ → String
limit_message show_usd amount symbol price = String.◌++◌ "USD " (
    String.◌++◌ (show_usd amount) (
      String.◌++◌ " no alcanza ni una fracción mínima de "
        (String.◌++◌ symbol (String.◌++◌ " a " (String.◌++◌ (show_usd price) " USD.")))))

-- `str` of the exception of a Decimal division by zero
division_message : ℤ → String
unfolding is_zero
division_message amount =
    if is_zero amount
    then "[<class 'decimal.DivisionUndefined'>]"
    else "[<class 'decimal.DivisionByZero'>]"

-- The part of `execute_place_trade` that sizes a LIMIT order.
limit_body : (ℤ → String) → TradeArgs → Option ℤ → Try Body
unfolding or_default shares_for validation_error limit_message division_message
limit_body show_usd args none = threw (crash "'limit_price'")
limit_body show_usd args (some price) = elim (shares_for args.amount_usd price) [
  | none ↦ threw (crash (division_message args.amount_usd))
  | some shares ↦
      if leb_ℤ shares (pos 0)
      then threw
          (validation_error (limit_message show_usd args.amount_usd (upper args.symbol) price))
      else value (
          limit_order (upper args.symbol) (upper args.action) (or_default args.currency "USD")
            (pos_part shares) price (or_default args.time_in_force "DAY"))
]

-- The request body of `execute_place_trade`.
unfoldable pub trade_body : (ℤ → String) → TradeArgs → Try Body
unfolding limit_body
trade_body show_usd args =
    if str_eq (or_default args.order_type "MARKET") "LIMIT"
    then limit_body show_usd args args.limit_price
    else value (
        market_order (upper args.symbol) (upper args.action) (or_default args.currency "USD")
          args.amount_usd)
