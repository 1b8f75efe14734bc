-- ===== src/Users/Usage/Deletions.antt =====
-- What the creation and the deletion of a record do to the counters (users/signals.py).
use tresqu_api.Common.{
  ℕ, some_inj, ◌+◌, ◌-◌, ◌≡◌, refl, sym, ap, ◌∙◌, true, false, some, arith, Option-cases,
  Bool-cases, ltb, inl, inr,
}
use tresqu_api.Common.Dates.{Date}
use tresqu_api.Users.Models.{User, MonthlyUsage, Db}
use tresqu_api.Users.Plans.{RecordType, expense, income}
use tresqu_api.Users.Periods.{Period, Relativedelta, calculate_user_billing_period}
use tresqu_api.Users.Usage.{
  find_usage, increment, decrement, used, set_used, is_usage_of, increment_monthly_count,
  decrement_monthly_count,
}
use tresqu_api.Users.Usage.Rows.{
  row_of, obtained, created_row, created_HasKey, HasKey, find_usage-HasKey, find_usage-save,
  find_usage-save_ne,
}
use tresqu_api.Users.Usage.Records.{HasMonth, increment_monthly_count-eq}

module _ (lib : Relativedelta) (user : User) (p : Period) (ok : HasMonth p) where
  abbrev counted : RecordType → MonthlyUsage → MonthlyUsage
  counted kind u = set_used kind (used kind u + 1) u

  set-HasKey :
      (kind : RecordType) (n y m : ℕ) (u : MonthlyUsage)
      → HasKey user.id y m u
      → HasKey user.id y m (set_used kind n u)
  unfolding set_used
  set-HasKey expense n y m u k = k
  set-HasKey income n y m u k = k

  used-counted :
      (kind : RecordType) (u : MonthlyUsage) → used kind (counted kind u) ≡ used kind u + 1
  unfolding used set_used
  used-counted expense u = refl
  used-counted income u = refl

  set_back :
      (kind : RecordType) (u : MonthlyUsage)
      → set_used kind (used kind u + 1 - 1) (counted kind u) ≡ u
  unfolding used set_used
  set_back expense u =
      let back : u.expenses_count + 1 - 1 ≡ u.expenses_count = omega arith in rw back refl
  set_back income u =
      let back : u.incomes_count + 1 - 1 ≡ u.incomes_count = omega arith in rw back refl

  row_after :
      (kind : RecordType) (db : Db)
      → row_of user.id p (increment kind (obtained user.id p db).0 (obtained user.id p db).2)
        ≡ some (counted kind (obtained user.id p db).0)
  unfolding increment
  row_after kind db =
      find_usage-save user.id p.period_start.year p.period_start.month
        (counted kind (obtained user.id p db).0) (obtained user.id p db).2.usages
        (obtained user.id p db).0
        (set-HasKey kind (used kind (obtained user.id p db).0 + 1) p.period_start.year
          p.period_start.month (obtained user.id p db).0 (created_HasKey user.id p db))
        (created_row user.id p db)

  uncounted :
      (kind : RecordType) (db : Db) (u : MonthlyUsage)
      → HasKey user.id p.period_start.year p.period_start.month u
      → row_of user.id p db ≡ some (counted kind u)
      → row_of user.id p (decrement kind (counted kind u) db) ≡ some u
  unfolding decrement
  uncounted kind db u k h =
      let t : ltb 0 (used kind u + 1) ≡ true = ground arith in
      rw (used-counted kind u, decrement, t, set_back kind u)
        (find_usage-save user.id p.period_start.year p.period_start.month u db.usages
          (counted kind u) k h)

  deleted :
      (kind : RecordType) (u : MonthlyUsage) (db : Db) (t : Date)
      → t.year ≡ p.period_start.year
      → t.month ≡ p.period_start.month
      → HasKey user.id p.period_start.year p.period_start.month u
      → row_of user.id p db ≡ some (counted kind u)
      → row_of user.id p (decrement_monthly_count kind user t db) ≡ some u
  unfolding decrement_monthly_count
  deleted kind u db t y m k h =
      let same : find_usage user.id t.year t.month db.usages ≡ some (counted kind u) =
        rw (y, m) h in
      rw (same, decrement_monthly_count) (uncounted kind db u k h)

  row_counted :
      (kind : RecordType) (db db1 : Db)
      → calculate_user_billing_period lib user db.now.date ≡ some p
      → increment_monthly_count lib kind user db ≡ some db1
      → row_of user.id p db1 ≡ some (counted kind (obtained user.id p db).0)
  row_counted kind db db1 e h =
      let same = some_inj (sym (increment_monthly_count-eq lib user p ok kind db e) ∙ h) in
      ap (row_of user.id p) (sym same) ∙ row_after kind db

  -- Where the current period begins in the years 1 to 9998: a record created, and deleted with a
  -- creation date in the month in which the period begins, leaves the usage row of the period as
  -- it was before the creation, with the row itself created where it was missing.
  pub decrement-increment :
      (kind : RecordType) (db db1 : Db) (created_date : Date)
      → calculate_user_billing_period lib user db.now.date ≡ some p
      → created_date.year ≡ p.period_start.year
      → created_date.month ≡ p.period_start.month
      → increment_monthly_count lib kind user db ≡ some db1
      → row_of user.id p (decrement_monthly_count kind user created_date db1)
        ≡ some (obtained user.id p db).0
  decrement-increment kind db db1 created_date e y m h =
      deleted kind (obtained user.id p db).0 db1 created_date y m (created_HasKey user.id p db)
        (row_counted kind db db1 e h)

  set_elsewhere :
      (kind : RecordType) (n y m : ℕ) (u : MonthlyUsage)
      → is_usage_of user.id y m u ≡ false
      → is_usage_of user.id y m (set_used kind n u) ≡ false
  unfolding is_usage_of set_used
  set_elsewhere expense n y m u h = h
  set_elsewhere income n y m u h = h

  kept_row :
      (kind : RecordType) (u : MonthlyUsage) (db : Db)
      → is_usage_of user.id p.period_start.year p.period_start.month u ≡ false
      → row_of user.id p (decrement kind u db) ≡ row_of user.id p db
  unfolding decrement
  kept_row kind u db h = elim (Bool-cases (ltb 0 (used kind u))) [
    | inl t ↦
        rw (t, decrement)
          (find_usage-save_ne user.id p.period_start.year p.period_start.month
            (set_used kind (used kind u - 1) u) db.usages
            (set_elsewhere kind (used kind u - 1) p.period_start.year p.period_start.month u h))
    | inr f ↦ rw (f, decrement) refl
  ]

  other_month :
      (t : Date) (u : MonthlyUsage)
      → ¬ (t.month ≡ p.period_start.month)
      → HasKey user.id t.year t.month u
      → is_usage_of user.id p.period_start.year p.period_start.month u ≡ false
  unfolding is_usage_of
  other_month t u n k = ground arith

  untouched :
      (kind : RecordType) (db : Db) (t : Date)
      → ¬ (t.month ≡ p.period_start.month)
      → row_of user.id p (decrement_monthly_count kind user t db) ≡ row_of user.id p db
  unfolding decrement_monthly_count
  untouched kind db t n = elim (Option-cases (find_usage user.id t.year t.month db.usages)) [
    | inl o ↦ rw (o, decrement_monthly_count) refl
    | inr (u, o) ↦
        rw (o, decrement_monthly_count)
          (kept_row kind u db
            (other_month t u n (find_usage-HasKey user.id t.year t.month db.usages u o)))
  ]

  -- Where the current period begins in the years 1 to 9998: a record whose creation date is in
  -- another month than the one in which the period begins stays counted after its deletion.
  pub decrement_elsewhere :
      (kind : RecordType) (db db1 : Db) (created_date : Date)
      → calculate_user_billing_period lib user db.now.date ≡ some p
      → ¬ (created_date.month ≡ p.period_start.month)
      → increment_monthly_count lib kind user db ≡ some db1
      → (u : MonthlyUsage) × (row_of user.id p (decrement_monthly_count kind user created_date db1)
          ≡ some u)
        × (used kind u ≡ used kind (obtained user.id p db).0 + 1)
  decrement_elsewhere kind db db1 created_date e n h = (
    counted kind (obtained user.id p db).0,
    untouched kind db1 created_date n ∙ row_counted kind db db1 e h,
    used-counted kind (obtained user.id p db).0,
  )
