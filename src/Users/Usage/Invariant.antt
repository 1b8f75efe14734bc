-- ===== src/Users/Usage/Invariant.antt =====
-- No sequence of creations and deletions counts more records in a month than the plan allows.
use tresqu_api.Common.{
  ℕ, ◌<◌, ◌≡◌, refl, sym, ap, ◌∙◌, false, some, some_inj, arith, inl, inr, String,
}
use tresqu_api.Common.Dates.{Date, Datetime, IsDate, max_year}
use tresqu_api.Users.Models.{SubscriptionPlan, User, Db, basic}
use tresqu_api.Users.Plans.{
  Settings, RecordType, expense, income, get_plan_limits, get_max_expenses, get_max_incomes,
}
use tresqu_api.Users.Periods.{Relativedelta, calculate_user_billing_period}
use tresqu_api.Users.Periods.Calendar.{calendar-eq, month_period}
use tresqu_api.Users.Usage.{increment, max_records, decrement_monthly_count, add_record}
use tresqu_api.Users.Usage.Rows.{obtained, created_row}
use tresqu_api.Users.Usage.Counting.{
  IsWithin, get_or_create_usage-IsWithin, found-IsWithin, increment-IsWithin,
  decrement_monthly_count-IsWithin,
}
use tresqu_api.Users.Usage.Creation.{add_record_lem}

-- The databases that the user's creations, at any later times, and deletions of records reach.
pub data Reaches (settings : Settings) (lib : Relativedelta) (user : User) (db : Db)
    : Db → Type 0 where
  start : Reaches settings lib user db db
  wait :
      {db1 : Db} (now : Datetime)
      → Reaches settings lib user db db1
      → Reaches settings lib user db (record db1 { now = now })
  create :
      {db1 db2 : Db} {message : String} {user1 : User} (kind : RecordType)
      → IsDate db1.now.date
      → db1.now.date.year < max_year
      → Reaches settings lib user db db1
      → add_record settings lib kind user db1 ≡ some (message, user1, db2)
      → Reaches settings lib user db db2
  delete :
      {db1 : Db} (kind : RecordType) (created_date : Date)
      → Reaches settings lib user db db1
      → Reaches settings lib user db (decrement_monthly_count kind user created_date db1)

abbrev pub basic_limit : Settings → RecordType → ℕ
basic_limit settings expense = settings.basic_plan_max_expenses
basic_limit settings income = settings.basic_plan_max_incomes

module _ (settings : Settings) (lib : Relativedelta) (user : User) (plan : SubscriptionPlan)
    (has : user.subscription_plan ≡ some plan) (is_basic : plan.name ≡ basic)
    (limited : plan.unlimited_records ≡ false) where
  basic_period :
      (db : Db)
      → IsDate db.now.date
      → db.now.date.year < max_year
      → calculate_user_billing_period lib user db.now.date
        ≡ some (month_period db.now.date.year db.now.date.month)
  unfolding calculate_user_billing_period
  basic_period db v h =
      rw (has, calculate_user_billing_period, is_basic) (calendar-eq db.now.date v h)

  max_records-eq :
      (kind : RecordType) → max_records settings kind plan.name ≡ some (basic_limit settings kind)
  unfolding max_records get_max_expenses get_max_incomes get_plan_limits
  max_records-eq expense = rw is_basic refl
  max_records-eq income = rw is_basic refl

  created-IsWithin :
      (kind k : RecordType) (db db1 : Db) (message : String) (user1 : User)
      → IsDate db.now.date
      → db.now.date.year < max_year
      → add_record settings lib k user db ≡ some (message, user1, db1)
      → IsWithin kind (basic_limit settings kind) user.id db.usages
      → IsWithin kind (basic_limit settings kind) user.id db1.usages
  created-IsWithin kind k db db1 message user1 v h e w =
      let p = month_period db.now.date.year db.now.date.month in
      let row = obtained user.id p db in
      let w1 =
        get_or_create_usage-IsWithin kind (basic_limit settings kind) user.id user.id
          db.now.date.year db.now.date.month db w in
      let row_within =
        found-IsWithin kind (basic_limit settings kind) user.id user.id db.now.date.year
          db.now.date.month row.2.usages row.0 w1 (created_row user.id p db) in
      elim (add_record_lem settings lib user plan has p (ground arith) db (basic_period db v h) k
        (basic_limit settings k) limited (max_records-eq k)) [
          | inl (low, f) ↦
              let after : increment k row.0 row.2 ≡ db1 = ap (λ r. r.2) (some_inj (sym f ∙ e)) in
              rw after at (
                increment-IsWithin kind (basic_limit settings kind) user.id k row.0 row.2 row_within
                  (λ i same. rw same low) w1)
          | inr (high, f) ↦
              let after : row.2 ≡ db1 = ap (λ r. r.2) (some_inj (sym f ∙ e)) in rw after at w1
        ]

  -- However a user of the BASIC plan, where that is limited, creates and deletes records in the
  -- years up to 9998, no month's row counts more expenses or incomes than the limit of the
  -- settings, if none did before.
  pub Reaches-IsWithin :
      (kind : RecordType) (db db1 : Db)
      → Reaches settings lib user db db1
      → IsWithin kind (basic_limit settings kind) user.id db.usages
      → IsWithin kind (basic_limit settings kind) user.id db1.usages
  Reaches-IsWithin kind db db1 start w = w
  Reaches-IsWithin kind db _ (wait now r) w = Reaches-IsWithin kind db _ r w
  Reaches-IsWithin kind db db1 (create {db1 = d} {message = m} {user1 = u} k v h r e) w =
      created-IsWithin kind k d db1 m u v h e (Reaches-IsWithin kind db d r w)
  Reaches-IsWithin kind db _ (delete {db1 = d} k t r) w =
      decrement_monthly_count-IsWithin kind (basic_limit settings kind) user.id k user t d
        (Reaches-IsWithin kind db d r w)
