-- ===== src/Balance.antt =====
-- expenses/balance.py, and `_filter_by_period` of telegrambot/tools.py: the balance of a user, by
-- currency. Expenses and incomes are one type of row, with `spent_at` or `received_at` as `day_at`.
-- A date is its ordinal number, amounts are in cents. The texts of the labels are left out.
pub mod Criterion
pub mod Anchors
pub mod Compute
pub mod Totals
pub mod Declared
mod Tests
use tresqu_api.Common.{
  ℕ, ◌+◌, ◌-◌, ◌≤◌, Bool, true, false, not, ◌&&◌, ◌||◌, Option, none, some, List, [], ◌∷◌, ◌++◌,
  String, ltb, leb, ◌==◌, str_eq, if◌then◌else◌, upper, contains, map,
}
use tresqu_api.Common.Int.{ℤ, pos, ◌+ℤ◌, ◌-ℤ◌}

-- The user's time zone, as `pytz` and `datetime` give it: the local date of an instant, the first and
-- the last instant of a date, and the day of the month of a date.
pub record Zone : Type 0 where
  pub local_day : ℕ → ℕ
  pub day_start : ℕ → ℕ
  pub day_end : ℕ → ℕ
  pub day_of_month : ℕ → ℕ

pub record Transaction : Type 0 where
  pub id : ℕ
  pub user : ℕ
  pub amount : ℤ
  pub currency : String
  pub category_str : String
  pub note : String
  pub timestamp : ℕ
  pub day_at : Option ℕ
  pub created_at : ℕ

abbrev pub initial_balance_note : String
initial_balance_note = "saldo inicial"

abbrev pub carry_over_days : ℕ
carry_over_days = 2

-- `_initial_balance_q`; `iexact` compares without regard to case.
unfoldable pub is_initial : Transaction → Bool
is_initial m =
    str_eq (upper m.note) (upper initial_balance_note)
    || str_eq (upper m.category_str) (upper initial_balance_note)

-- `anchors[currency]` on a dict keyed by currency.
unfoldable pub get_anchor : String → List (String × Transaction) → Option Transaction
get_anchor currency [] = none
get_anchor currency ((other, m) ∷ anchors) =
    if str_eq other currency then some m else get_anchor currency anchors

unfoldable pub put_anchor :
    String → Transaction → List (String × Transaction) → List (String × Transaction)
put_anchor currency m [] = (currency, m) ∷ []
put_anchor currency m ((other, n) ∷ anchors) =
    if str_eq other currency
    then (currency, m) ∷ anchors
    else (other, n) ∷ put_anchor currency m anchors

-- A test against a bound that may be missing.
abbrev pub from_bound : Option ℕ → ℕ → Bool
from_bound none day = true
from_bound (some since) day = leb since day

abbrev pub to_bound : Option ℕ → ℕ → Bool
to_bound none day = true
to_bound (some until) day = leb day until

module _ (zone : Zone) where
  -- `_effective_date`
  unfoldable pub effective_day : Transaction → ℕ
  effective_day m = elim m.day_at [ none ↦ zone.local_day m.timestamp | some day ↦ day ]

  -- `_anchor_key(a) < _anchor_key(b)`
  unfoldable pub key_before : Transaction → Transaction → Bool
  key_before a b =
      ltb (effective_day a) (effective_day b)
      || effective_day a == effective_day b
        && (ltb a.created_at b.created_at || a.created_at == b.created_at && ltb a.id b.id)

  unfoldable pub is_anchor : ℕ → Option ℕ → Option ℕ → Transaction → Bool
  is_anchor user since until m =
      m.user == user
      && is_initial m
      && from_bound since (effective_day m)
      && to_bound until (effective_day m)

  -- `current is None or _anchor_key(income) > _anchor_key(current)`
  unfoldable pub is_later : Option Transaction → Transaction → Bool
  is_later none m = true
  is_later (some current) m = key_before current m

  -- The loop of `latest_initial_balances`.
  unfoldable pub add_anchors :
      ℕ
      → Option ℕ
      → Option ℕ
      → List Transaction
      → List (String × Transaction)
      → List (String × Transaction)
  add_anchors user since until [] anchors = anchors
  add_anchors user since until (m ∷ incomes) anchors = add_anchors user since until incomes (
      if is_anchor user since until m && is_later (get_anchor m.currency anchors) m
      then put_anchor m.currency m anchors
      else anchors)

  unfoldable pub latest_initial_balances :
      ℕ → Option ℕ → Option ℕ → List Transaction → List (String × Transaction)
  unfolding add_anchors
  latest_initial_balances user since until incomes = add_anchors user since until incomes []

  unfoldable pub after_by_day : Transaction → Transaction → Option ℕ → Bool
  after_by_day anchor m (some day) =
      ltb (effective_day anchor) day
      || day == effective_day anchor && ltb anchor.created_at m.created_at
  after_by_day anchor m none =
      leb (zone.day_start (effective_day anchor + 1)) m.timestamp
      || leb (zone.day_start (effective_day anchor)) m.timestamp
        && ltb anchor.created_at m.created_at

  -- `_after_anchor`
  unfoldable pub after_anchor : Transaction → Transaction → Bool
  unfolding after_by_day
  after_anchor anchor m = after_by_day anchor m m.day_at

  unfoldable pub in_by_day : Option ℕ → Option ℕ → ℕ → Option ℕ → Bool
  in_by_day start end timestamp (some day) = from_bound start day && to_bound end day
  in_by_day none none timestamp none = true
  in_by_day none (some end) timestamp none = leb timestamp (zone.day_end end)
  in_by_day (some start) none timestamp none = leb (zone.day_start start) timestamp
  in_by_day (some start) (some end) timestamp none =
      leb (zone.day_start start) timestamp && leb timestamp (zone.day_end end)

  -- `_filter_by_period`
  unfoldable pub in_period : Option ℕ → Option ℕ → Transaction → Bool
  unfolding in_by_day
  in_period start end m = in_by_day start end m.timestamp m.day_at
