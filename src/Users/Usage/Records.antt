-- ===== src/Users/Usage/Records.antt =====
-- The usage row of the current period, and what creating and deleting a record does to it.
use tresqu_api.Common.{
  some_inj, ◌<◌, ◌≤◌, ◌≡◌, refl, sym, ap, ◌∙◌, Bool, true, false, none, some, arith, Option-cases,
  inl, inr, if◌then◌else◌,
}
use tresqu_api.Common.Dates.{date, max_year}
use tresqu_api.Users.Models.{User, MonthlyUsage, Db}
use tresqu_api.Users.Plans.{RecordType}
use tresqu_api.Users.Periods.{Period, Relativedelta, calculate_user_billing_period}
use tresqu_api.Users.Periods.Calendar.{calendar-eq, month_period, days_in_month_range}
use tresqu_api.Users.Usage.{
  get_or_create_usage, get_or_create_current, usable, usage_for, calculate_period_from_record,
  is_same_period, get_current_usage, increment, increment_monthly_count,
}
use tresqu_api.Users.Usage.Rows.{
  row_of, obtained, created_row, created_now, created_again, HasKey, find_usage-HasKey,
}

-- A period that begins in a month of the years 1 to 9998.
abbrev pub HasMonth : Period → Type 0
HasMonth p =
    (1 ≤ p.period_start.year)
    × (p.period_start.year < max_year)
    × (1 ≤ p.period_start.month)
    × (p.period_start.month ≤ 12)

module _ (lib : Relativedelta) (user : User) (p : Period) (ok : HasMonth p) where
  period_of_row :
      (u : MonthlyUsage)
      → HasKey user.id p.period_start.year p.period_start.month u
      → calculate_period_from_record u ≡ some (month_period u.year u.month)
  unfolding calculate_period_from_record
  period_of_row u k =
      calendar-eq (date u.year u.month 15) (ground (arith, days_in_month_range u.year u.month))
        (ground arith)

  found_anyway :
      (db : Db) (u : MonthlyUsage)
      → row_of user.id p db ≡ some u
      → (b : Bool) → usage_for user.id p (if b then some u else none) db ≡ obtained user.id p db
  unfolding usage_for get_or_create_usage
  found_anyway db u h true = rw (h, get_or_create_usage) refl
  found_anyway db u h false = refl

  -- Where the current period begins in the years 1 to 9998: whether or not the calendar month of
  -- the existing row is that period, the row of the month in which the period begins is used, and
  -- is created where there is none, so that the comparison of the periods has no effect.
  pub get_or_create_current_lem :
      (db : Db)
      → calculate_user_billing_period lib user db.now.date ≡ some p
      → get_or_create_current lib user db ≡ some (obtained user.id p db)
  unfolding get_or_create_current usable usage_for
  get_or_create_current_lem db e = elim (Option-cases (row_of user.id p db)) [
    | inl n ↦ rw (e, get_or_create_current, n) refl
    | inr (u, s) ↦
        rw
          (
            e,
            get_or_create_current,
            s,
            usable,
            period_of_row u
                (find_usage-HasKey user.id p.period_start.year p.period_start.month db.usages u s),
          )
          (ap some (found_anyway db u s (is_same_period (month_period u.year u.month) p)))
  ]

  -- Asking again in the same period gives the same row and changes nothing.
  pub get_or_create_current_twice :
      (db db1 : Db) (u : MonthlyUsage) (c : Bool)
      → calculate_user_billing_period lib user db.now.date ≡ some p
      → get_or_create_current lib user db ≡ some (u, c, db1)
      → get_or_create_current lib user db1 ≡ some (u, false, db1)
  get_or_create_current_twice db db1 u c e h =
      let same = some_inj (sym (get_or_create_current_lem db e) ∙ h) in
      let row = ap some (ap (λ r. r.0) same) in
      let after = ap (λ r. r.2) same in
      let found = ap (row_of user.id p) (sym after) ∙ created_row user.id p db ∙ row in
      let later =
        ap (λ d. calculate_user_billing_period lib user d.now.date) (sym after)
        ∙ ap (λ n. calculate_user_billing_period lib user n.date) (created_now user.id p db)
        ∙ e in
      get_or_create_current_lem db1 later ∙ ap some (created_again user.id p db1 u found)

  pub increment_monthly_count-eq :
      (kind : RecordType) (db : Db)
      → calculate_user_billing_period lib user db.now.date ≡ some p
      → increment_monthly_count lib kind user db
        ≡ some (increment kind (obtained user.id p db).0 (obtained user.id p db).2)
  unfolding increment_monthly_count get_current_usage
  increment_monthly_count-eq kind db e =
      rw (get_or_create_current_lem db e, increment_monthly_count, get_current_usage) refl
