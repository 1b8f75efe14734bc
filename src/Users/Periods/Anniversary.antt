-- ===== src/Users/Periods/Anniversary.antt =====
-- Billing periods that begin on the day of the subscription.
use tresqu_api.Common.{
  ℕ, some_inj, ◌-◌, ◌<◌, ◌≤◌, ◌≡◌, refl, sym, ap, ◌∙◌, true, false, some, ◌↔◌, arith, inl, inr,
  Bool-cases, min, if◌then◌else◌, ◌==◌, leb,
}
use tresqu_api.Common.Dates.{
  Date, date, Datetime, max_year, days_in_month, IsDate, is_before, yesterday,
}
use tresqu_api.Users.Models.{User}
use tresqu_api.Users.Periods.{
  Period, period_with, Relativedelta, start_in_month, period_from, calculate_anniversary_period,
}
use tresqu_api.Users.Periods.Calendar.{
  Contains, days_in_month_range, make_date-eq, following, yesterday-following, Contains-same,
}

-- The first day of the month before.
abbrev pub preceding : ℕ → ℕ → Date
preceding y m = if m == 1 then date (y - 1) 12 1 else date y (m - 1) 1

-- The day `d` in the month of `t`, or the month's last day.
abbrev pub clamp : Date → ℕ → Date
clamp t d = date t.year t.month (min d (days_in_month t.year t.month))

-- What python-dateutil documents of `relativedelta(months=1)`.
pub record IsRelativedelta (lib : Relativedelta) : Type 0 where
  pub plus_month_eq :
      (t : Date)
      → IsDate t
      → t.year < max_year
      → lib.plus_month t ≡ clamp (following t.year t.month) t.day
  pub minus_month_eq :
      (t : Date)
      → IsDate t
      → 1 < t.year
      → lib.minus_month t ≡ clamp (preceding t.year t.month) t.day

-- The period that begins on day `b` of the month.
abbrev pub period_of : ℕ → ℕ → ℕ → Period
period_of b y m = record {
  period_start = date y m b;
  period_end = yesterday (clamp (following y m) b);
}

-- Where the period of `t` begins.
abbrev pub begins : ℕ → Date → Date
begins b t = if leb b t.day then date t.year t.month 1 else preceding t.year t.month

clamp-same : (t : Date) (b : ℕ) → b ≤ 28 → clamp t b ≡ date t.year t.month b
clamp-same t b h = let (x, y) = days_in_month_range t.year t.month in ground arith

module _ (lib : Relativedelta) (laws : IsRelativedelta lib) (b : ℕ) (low : 1 ≤ b)
    (high : b ≤ 28) where
  IsDate-day : (t : Date) → IsDate t → IsDate (date t.year t.month b)
  IsDate-day t v = let (x, y) = days_in_month_range t.year t.month in ground arith

  preceding_valid :
      (t : Date)
      → IsDate t
      → 1 < t.year
      → IsDate (date (preceding t.year t.month).year (preceding t.year t.month).month b)
  preceding_valid t v h =
      let (x, y) =
        days_in_month_range (preceding t.year t.month).year (preceding t.year t.month).month in
      ground arith

  not_before : (t : Date) → leb b t.day ≡ true → is_before t (date t.year t.month b) ≡ false
  unfolding is_before
  not_before t e = ground arith

  is_after : (t : Date) → leb b t.day ≡ false → is_before t (date t.year t.month b) ≡ true
  unfolding is_before
  is_after t e = ground arith

  ends-eq :
      (t : Date)
      → IsDate (date t.year t.month b)
      → t.year < max_year
      → period_with lib (date t.year t.month b) ≡ period_of b t.year t.month
  unfolding period_with
  ends-eq t v h = rw (laws.plus_month_eq (date t.year t.month b) v h) refl

  pub period_from-eq :
      (t : Date)
      → IsDate t
      → 1 < t.year
      → t.year < max_year
      → period_from lib t (date t.year t.month b) ≡ period_of b (begins b t).year (begins b t).month
  unfolding period_from
  period_from-eq t v lo hi =
      let day_valid = IsDate-day t v in
      elim (Bool-cases (leb b t.day)) [
        | inl e ↦ rw (not_before t e, e) (ends-eq t day_valid hi)
        | inr e ↦
            let back =
              laws.minus_month_eq (date t.year t.month b) day_valid lo
              ∙ clamp-same (preceding t.year t.month) b high in
            rw (is_after t e, e, back)
              (ends-eq (preceding t.year t.month) (preceding_valid t v lo) (ground arith))
      ]

  -- The last day of the period that begins on day `b` of the month.
  last_day : ℕ → ℕ → Date
  last_day y m =
      if b == 1
      then date y m (days_in_month y m)
      else date (following y m).year (following y m).month (b - 1)

  period_end-eq : (y m : ℕ) → 1 ≤ m → m ≤ 12 → yesterday (clamp (following y m) b) ≡ last_day y m
  unfolding yesterday last_day
  period_end-eq y m i j =
      ap yesterday (clamp-same (following y m) b high) ∙ ground (arith, yesterday-following y m i j)

  abbrev IsBegun : ℕ → ℕ → Date → Type 0
  IsBegun y m u = ((begins b u).year ≡ y) × ((begins b u).month ≡ m)

  within :
      (y m : ℕ) (u : Date)
      → 1 ≤ m
      → m ≤ 12
      → IsDate u
      → is_before u (date y m b) ≡ false
      → is_before (last_day y m) u ≡ false
      → IsBegun y m u
  unfolding is_before last_day
  within y m u i j v s e = ground arith

  begun_within :
      (y m : ℕ) (u : Date)
      → 1 ≤ m
      → m ≤ 12
      → IsDate u
      → 1 < u.year
      → IsBegun y m u
      → (is_before u (date y m b) ≡ false) × (is_before (last_day y m) u ≡ false)
  unfolding is_before last_day
  begun_within y m u i j v k e = ground arith

  begins_month : (t : Date) → IsDate t → (1 ≤ (begins b t).month) × ((begins b t).month ≤ 12)
  begins_month t v = ground arith

  IsBegun-Contains :
      (y m : ℕ) (u : Date)
      → 1 ≤ m
      → m ≤ 12
      → IsDate u
      → 1 < u.year
      → IsBegun y m u ↔ Contains (period_of b y m) u
  IsBegun-Contains y m u i j v k = (
    λ e. let (s, f) = begun_within y m u i j v k e in (s, rw (period_end-eq y m i j) f),
    λ (s, f). within y m u i j v s (rw (period_end-eq y m i j) at f),
  )

  start_in_month-eq : (t : Date) → IsDate t → start_in_month b t ≡ some (date t.year t.month b)
  unfolding start_in_month
  start_in_month-eq t v = rw (make_date-eq t.year t.month b (IsDate-day t v), start_in_month) refl

  module _ (user : User) (moment : Datetime) (sub : user.subscription_start_date ≡ some moment)
      (day : moment.date.day ≡ b) where
    pub anniversary-eq :
        (t : Date)
        → IsDate t
        → 1 < t.year
        → t.year < max_year
        → calculate_anniversary_period lib user t
          ≡ some (period_of b (begins b t).year (begins b t).month)
    unfolding calculate_anniversary_period
    anniversary-eq t v lo hi =
        rw (sub, calculate_anniversary_period, day, start_in_month-eq t v)
          (ap some (period_from-eq t v lo hi))

    -- With a day of subscription from 1 to 28, the anniversary period of a date holds exactly the
    -- dates that have the same period (dates of the years 2 to 9998, under what is documented of
    -- `relativedelta`): every date is in its own period, and two periods never overlap.
    pub anniversary_partition :
        (t u : Date) (p : Period)
        → IsDate t
        → IsDate u
        → 1 < t.year
        → 1 < u.year
        → t.year < max_year
        → u.year < max_year
        → calculate_anniversary_period lib user t ≡ some p
        → Contains p u ↔ (calculate_anniversary_period lib user u ≡ some p)
    anniversary_partition t u p v w lo lo' hi hi' e =
        let own = some_inj (sym (anniversary-eq t v lo hi) ∙ e) in
        let (i, j) = begins_month t v in
        let (k, l) = begins_month u w in
        (
          λ c. begun (
              ((IsBegun-Contains (begins b t).year (begins b t).month u i j w lo').1)
                (Contains-same u (sym own) c)),
          λ f.
              let theirs = some_inj (sym (anniversary-eq u w lo' hi') ∙ f) in
              Contains-same u theirs (
                (IsBegun-Contains (begins b u).year (begins b u).month u k l w lo').0 (refl, refl)),
        )
      where
        begun :
            IsBegun (begins b t).year (begins b t).month u
            → calculate_anniversary_period lib user u ≡ some p
        begun (y, m) = anniversary-eq u w lo' hi' ∙ rw (y, m) (sym (anniversary-eq t v lo hi) ∙ e)
