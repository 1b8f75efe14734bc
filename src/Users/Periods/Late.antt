-- ===== src/Users/Periods/Late.antt =====
-- Billing days past the end of a month (users/models.py, MonthlyUsage.calculate_anniversary_period).
use tresqu_api.Common.{ℕ, ◌<◌, ◌≡◌, refl, ap, ◌∙◌, true, some, arith, inl, inr, Bool-cases}
use tresqu_api.Common.Dates.{date, Datetime, max_year, is_leap, days_in_month, is_before, yesterday}
use tresqu_api.Users.Models.{User}
use tresqu_api.Users.Periods.{
  Period, period_with, Relativedelta, start_in_month, period_from, calculate_anniversary_period,
}
use tresqu_api.Users.Periods.Calendar.{days_in_month_range, make_date-eq}
use tresqu_api.Users.Periods.Anniversary.{IsRelativedelta}

-- The period from `start`, one month back: 31 March goes back to the end of February.
module _ (lib : Relativedelta) (laws : IsRelativedelta lib) (y : ℕ) (lo : 1 < y)
    (hi : y < max_year) where
  end_of_february : lib.minus_month (date y 3 31) ≡ date y 2 (days_in_month y 2)
  unfolding days_in_month
  end_of_february = laws.minus_month_eq (date y 3 31) (ground arith) lo ∙ ground arith

  april_before : lib.plus_month (date y 2 (days_in_month y 2)) ≡ date y 3 (days_in_month y 2)
  unfolding days_in_month
  april_before =
      laws.plus_month_eq (date y 2 (days_in_month y 2)) (ground (arith, days_in_month_range y 2)) hi
      ∙ ground arith

  late_march :
      is_before (yesterday (lib.plus_month (date y 2 (days_in_month y 2)))) (date y 3 30) ≡ true
  unfolding days_in_month yesterday is_before
  late_march =
      rw april_before (elim (Bool-cases (is_leap y)) [
        | inl e ↦ rw e (ground arith)
        | inr e ↦ rw e (ground arith)
      ])

  march_31 : start_in_month 31 (date y 3 30) ≡ some (date y 3 31)
  unfolding start_in_month days_in_month
  march_31 = rw (make_date-eq y 3 31 (ground arith), start_in_month) refl

  from_february :
      period_from lib (date y 3 30) (date y 3 31) ≡ period_with lib (lib.minus_month (date y 3 31))
  unfolding period_from is_before
  from_february = ground arith

  late_start :
      (user : User) (moment : Datetime)
      → user.subscription_start_date ≡ some moment
      → moment.date.day ≡ 31
      → calculate_anniversary_period lib user (date y 3 30)
        ≡ some (period_with lib (lib.minus_month (date y 3 31)))
  unfolding calculate_anniversary_period
  late_start user moment sub day =
      rw (sub, calculate_anniversary_period, day, march_31) (ap some from_february)

  -- A subscription that began on the 31st of a month has on 30 March of any year from 2 to 9998 a
  -- period that is already over, under what is documented of `relativedelta`.
  pub anniversary_late :
      (user : User) (moment : Datetime)
      → user.subscription_start_date ≡ some moment
      → moment.date.day ≡ 31
      → (p : Period) × (calculate_anniversary_period lib user (date y 3 30) ≡ some p)
        × (is_before p.period_end (date y 3 30) ≡ true)
  unfolding period_with yesterday
  anniversary_late user moment sub day = (
    period_with lib (lib.minus_month (date y 3 31)),
    late_start user moment sub day,
    rw end_of_february late_march,
  )
