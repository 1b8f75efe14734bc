-- ===== src/Users/Periods/Calendar.antt =====
-- Calendar months as billing periods.
use tresqu_api.Common.{
  ℕ, some_inj, ◌+◌, ◌<◌, ◌≤◌, ◌≡◌, refl, sym, subst, ◌∙◌, false, none, some, ◌↔◌, arith,
  if◌then◌else◌, ◌==◌,
}
use tresqu_api.Common.Dates.{
  Date, date, max_year, days_in_month, make_date, IsDate, is_before, yesterday,
}
use tresqu_api.Users.Periods.{Period, next_month_first, calculate_calendar_month_period}

abbrev pub Contains : Period → Date → Type 0
Contains p t = (is_before t p.period_start ≡ false) × (is_before p.period_end t ≡ false)

abbrev pub month_period : ℕ → ℕ → Period
month_period y m = record { period_start = date y m 1; period_end = date y m (days_in_month y m) }

pub days_in_month_range : (y m : ℕ) → (28 ≤ days_in_month y m) × (days_in_month y m ≤ 31)
unfolding days_in_month
days_in_month_range y m = ground arith

pub make_date-eq : (y m d : ℕ) → IsDate (date y m d) → make_date y m d ≡ some (date y m d)
unfolding make_date
make_date-eq y m d v = ground arith

pub make_date-raises : (y m d : ℕ) → days_in_month y m < d → make_date y m d ≡ none
unfolding make_date
make_date-raises y m d h = ground arith

-- The first day of the following month.
abbrev pub following : ℕ → ℕ → Date
following y m = if m == 12 then date (y + 1) 1 1 else date y (m + 1) 1

pub next_month_first-eq :
    (y m : ℕ) → 1 ≤ y → y < max_year → 1 ≤ m → m ≤ 12 → next_month_first y m ≡ some (following y m)
unfolding next_month_first
next_month_first-eq y m h k i j = ground (
  arith,
  make_date-eq (y + 1) 1 1,
  make_date-eq y (m + 1) 1,
  days_in_month_range (y + 1) 1,
  days_in_month_range y (m + 1),
)

pub yesterday-following :
    (y m : ℕ) → 1 ≤ m → m ≤ 12 → yesterday (following y m) ≡ date y m (days_in_month y m)
unfolding yesterday days_in_month
yesterday-following y m i j = ground arith

pub calendar-eq :
    (t : Date)
    → IsDate t
    → t.year < max_year
    → calculate_calendar_month_period t ≡ some (month_period t.year t.month)
unfolding calculate_calendar_month_period
calendar-eq t v h =
    let (a, b, c, d, e, f) = v in
    rw
      (
        make_date-eq t.year t.month 1 (ground (arith, days_in_month_range t.year t.month)),
        next_month_first-eq t.year t.month a h c d,
        yesterday-following t.year t.month c d,
      )
      refl

abbrev pub IsInMonth : ℕ → ℕ → Date → Type 0
IsInMonth y m u = (u.year ≡ y) × (u.month ≡ m)

month_period-Contains :
    (y m : ℕ) (u : Date) → IsDate u → Contains (month_period y m) u → IsInMonth y m u
unfolding is_before
month_period-Contains y m u v c = ground arith

IsInMonth-Contains :
    (y m : ℕ) (u : Date) → IsDate u → IsInMonth y m u → Contains (month_period y m) u
unfolding is_before
IsInMonth-Contains y m u v (e, f) = rw (sym e, sym f) (ground arith)

pub Contains-same : (u : Date) {p q : Period} → p ≡ q → Contains p u → Contains q u
Contains-same u e = subst (λ p. Contains p u) e

-- A calendar month is the period of exactly the dates that it contains: the periods of two dates
-- are the same or do not meet, and every date is in its own (years up to 9998).
pub calendar_partition :
    (t u : Date) (p : Period)
    → IsDate t
    → IsDate u
    → t.year < max_year
    → u.year < max_year
    → calculate_calendar_month_period t ≡ some p
    → Contains p u ↔ (calculate_calendar_month_period u ≡ some p)
calendar_partition t u p v w h k e =
    let own = some_inj (sym (calendar-eq t v h) ∙ e) in
    (
      λ c. in_month (month_period-Contains t.year t.month u w (Contains-same u (sym own) c)),
      λ f.
          let theirs = some_inj (sym (calendar-eq u w k) ∙ f) in
          Contains-same u theirs (IsInMonth-Contains u.year u.month u w (refl, refl)),
    )
  where
    in_month : IsInMonth t.year t.month u → calculate_calendar_month_period u ≡ some p
    in_month (y, m) = calendar-eq u w k ∙ rw (y, m) (sym (calendar-eq t v h) ∙ e)
