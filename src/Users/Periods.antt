-- ===== src/Users/Periods.antt =====
-- The billing period of a user (users/models.py, MonthlyUsage.calculate_*). `relativedelta` is a
-- parameter: it belongs to python-dateutil.
pub mod Calendar
pub mod Anniversary
pub mod Late
use tresqu_api.Common.{ℕ, ◌+◌, ◌>>=◌, Option, none, some, ◌==◌, min, if◌then◌else◌}
use tresqu_api.Common.Dates.{Date, Datetime, make_date, is_before, yesterday}
use tresqu_api.Users.Models.{PlanName, basic, premium, business, User}

pub record Period : Type 0 where
  pub period_start : Date
  pub period_end : Date

-- `d + relativedelta(months=1)` and `d - relativedelta(months=1)`
pub record Relativedelta : Type 0 where
  pub plus_month : Date → Date
  pub minus_month : Date → Date

unfoldable pub next_month_first : ℕ → ℕ → Option Date
next_month_first year month =
    if month == 12 then make_date (year + 1) 1 1 else make_date year (month + 1) 1

-- An exception is `none`.
unfoldable pub calculate_calendar_month_period : Date → Option Period
calculate_calendar_month_period reference_date = do
  start ← make_date reference_date.year reference_date.month 1
  next_first ← next_month_first reference_date.year reference_date.month
  some (record { period_start = start; period_end = yesterday next_first })

-- The `except ValueError` branch: the month has no such day.
pub clamped_start : ℕ → Date → Option Date
clamped_start billing_day reference_date = do
  next_first ← next_month_first reference_date.year reference_date.month
  make_date reference_date.year reference_date.month (min billing_day (yesterday next_first).day)

-- The start of the period that begins in the month of `reference_date`.
unfoldable pub start_in_month : ℕ → Date → Option Date
start_in_month billing_day reference_date =
    elim (make_date reference_date.year reference_date.month billing_day) [
      | some t ↦ some t
      | none ↦ clamped_start billing_day reference_date
    ]

unfoldable pub period_with : Relativedelta → Date → Period
period_with lib start = record {
  period_start = start;
  period_end = yesterday (lib.plus_month start);
}

unfoldable pub period_from : Relativedelta → Date → Date → Period
period_from lib reference_date start =
    period_with lib (if is_before reference_date start then lib.minus_month start else start)

unfoldable pub calculate_anniversary_period : Relativedelta → User → Date → Option Period
calculate_anniversary_period lib user reference_date = elim user.subscription_start_date [
  | none ↦ calculate_calendar_month_period reference_date
  | some moment ↦ do
    start ← start_in_month moment.date.day reference_date
    some (period_from lib reference_date start)
]

unfoldable pub calculate_user_billing_period : Relativedelta → User → Date → Option Period
calculate_user_billing_period lib user reference_date = elim user.subscription_plan [
  | none ↦ calculate_calendar_month_period reference_date
  | some plan ↦ elim plan.name [
    | basic ↦ calculate_calendar_month_period reference_date
    | premium ↦ calculate_anniversary_period lib user reference_date
    | business ↦ calculate_anniversary_period lib user reference_date
  ]
]
