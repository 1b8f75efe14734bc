-- ===== src/Users/Usage.antt =====
-- Monthly usage (users/models.py, MonthlyUsage) and the signals that count records
-- (users/signals.py). `timezone.now().date()` is the date of `Db.now`.
pub mod Rows
pub mod Records
pub mod Deletions
pub mod Counting
pub mod Creation
pub mod Invariant
use tresqu_api.Common.{
  ℕ, ◌+◌, ◌-◌, Bool, true, false, ◌&&◌, Option, none, some, List, [], ◌∷◌, ◌++◌, String, ◌==◌,
  ◌>>=◌, if◌then◌else◌, find?, leb, ltb,
}
use tresqu_api.Common.Dates.{Date, date, is_same_date}
use tresqu_api.Users.Models.{PlanName, basic, SubscriptionPlan, User, MonthlyUsage, Db}
use tresqu_api.Users.Plans.{
  Settings, RecordType, expense, income, get_max_expenses, get_max_incomes, get_upgrade_message,
  assign_basic_plan_if_none,
}
use tresqu_api.Users.Periods.{
  Period, Relativedelta, calculate_calendar_month_period, calculate_user_billing_period,
}

-- `filter(user=user, year=year, month=month)`: the row's unique key
unfoldable pub is_usage_of : ℕ → ℕ → ℕ → MonthlyUsage → Bool
is_usage_of user year month u = u.user == user && u.year == year && u.month == month

unfoldable pub find_usage : ℕ → ℕ → ℕ → List MonthlyUsage → Option MonthlyUsage
find_usage user year month rows = find? (is_usage_of user year month) rows

-- `usage.save()`
pub save_usage : MonthlyUsage → List MonthlyUsage → List MonthlyUsage
save_usage usage [] = []
save_usage usage (u ∷ us) =
    if is_usage_of usage.user usage.year usage.month u then usage ∷ us else u ∷ save_usage usage us

unfoldable pub new_usage : ℕ → ℕ → ℕ → MonthlyUsage
new_usage user year month = record {
  user = user;
  year = year;
  month = month;
  expenses_count = 0;
  incomes_count = 0;
}

-- `cls.objects.get_or_create(user, year, month, defaults)`
unfoldable pub get_or_create_usage : ℕ → ℕ → ℕ → Db → MonthlyUsage × Bool × Db
get_or_create_usage user year month db = elim (find_usage user year month db.usages) [
  | some usage ↦ (usage, false, db)
  | none ↦
      let usage = new_usage user year month in
      (usage, true, record db { usages = db.usages ++ usage ∷ [] })
]

-- The calendar month of the row.
unfoldable pub calculate_period_from_record : MonthlyUsage → Option Period
calculate_period_from_record usage =
    calculate_calendar_month_period (date usage.year usage.month 15)

unfoldable pub is_same_period : Period → Period → Bool
is_same_period p q =
    is_same_date p.period_start q.period_start && is_same_date p.period_end q.period_end

-- The existing row, where its period is the one asked for.
unfoldable pub usable : Option MonthlyUsage → Period → Option (Option MonthlyUsage)
usable none period = some none
usable (some usage) period = do
  existing ← calculate_period_from_record usage
  some (if is_same_period existing period then some usage else none)

unfoldable pub usage_for : ℕ → Period → Option MonthlyUsage → Db → MonthlyUsage × Bool × Db
usage_for user period (some usage) db = (usage, false, db)
usage_for user period none db =
    get_or_create_usage user period.period_start.year period.period_start.month db

-- An exception is `none`.
unfoldable pub get_or_create_current : Relativedelta → User → Db → Option (MonthlyUsage × Bool × Db)
get_or_create_current lib user db = do
  period ← calculate_user_billing_period lib user db.now.date
  found ←
      usable (find_usage user.id period.period_start.year period.period_start.month db.usages)
        period
  some (usage_for user.id period found db)

unfoldable pub get_current_usage : Relativedelta → User → Db → Option (MonthlyUsage × Db)
get_current_usage lib user db = do
  (usage, created, db1) ← get_or_create_current lib user db
  some (usage, db1)

-- The methods for expenses and for incomes differ in the counter and in the limit alone.
unfoldable pub used : RecordType → MonthlyUsage → ℕ
used expense usage = usage.expenses_count
used income usage = usage.incomes_count

unfoldable pub max_records : Settings → RecordType → PlanName → Option ℕ
max_records settings expense name = get_max_expenses settings name
max_records settings income name = get_max_incomes settings name

below : ℕ → Option ℕ → String → Bool × String
below count none message = (true, "")
below count (some limit) message = if leb limit count then (false, message) else (true, "")

-- `usage.can_add_expense()` and `usage.can_add_income()`, where `user` is `usage.user`
unfoldable pub usage_can_add : Settings → RecordType → User → MonthlyUsage → Bool × String
unfolding below
usage_can_add settings kind user usage = elim user.subscription_plan [
  | none ↦ (false, "No tienes un plan asignado")
  | some plan ↦
      if plan.unlimited_records
      then (true, "")
      else below (used kind usage) (max_records settings kind plan.name)
          (get_upgrade_message settings plan.name kind)
]

-- `user.can_add_expense()` and `user.can_add_income()`
unfoldable pub can_add :
    Settings → Relativedelta → RecordType → User → Db → Option ((Bool × String) × User × Db)
can_add settings lib kind user db =
    let (user1, db1) = assign_basic_plan_if_none user db in
    do
      (usage, db2) ← get_current_usage lib user1 db1
      some (usage_can_add settings kind user1 usage, user1, db2)

pub set_used : RecordType → ℕ → MonthlyUsage → MonthlyUsage
set_used expense n usage = record usage { expenses_count = n }
set_used income n usage = record usage { incomes_count = n }

-- `increment_expenses` and `increment_incomes`
pub increment : RecordType → MonthlyUsage → Db → Db
increment kind usage db = record db {
  usages = save_usage (set_used kind (used kind usage + 1) usage) db.usages;
}

-- `decrement_expenses` and `decrement_incomes`
pub decrement : RecordType → MonthlyUsage → Db → Db
decrement kind usage db =
    if ltb 0 (used kind usage)
    then record db { usages = save_usage (set_used kind (used kind usage - 1) usage) db.usages }
    else db

-- `post_save` of a new Expense or Income
unfoldable pub increment_monthly_count : Relativedelta → RecordType → User → Db → Option Db
increment_monthly_count lib kind user db = do
  (usage, db1) ← get_current_usage lib user db
  some (increment kind usage db1)

-- `post_delete` of an Expense or Income that was created on `created_date`
pub decrement_monthly_count : RecordType → User → Date → Db → Db
decrement_monthly_count kind user created_date db =
    elim (find_usage user.id created_date.year created_date.month db.usages) [
      | none ↦ db
      | some usage ↦ decrement kind usage db
    ]

add_if : Relativedelta → RecordType → (Bool × String) × User × Db → Option (String × User × Db)
add_if lib kind ((false, message), user, db) = some (message, user, db)
add_if lib kind ((true, message), user, db) = do
  db1 ← increment_monthly_count lib kind user db
  some (message, user, db1)

-- The creation of a record: the plan's limit is checked, and the record is stored and counted where
-- the check passes.
unfoldable pub add_record :
    Settings → Relativedelta → RecordType → User → Db → Option (String × User × Db)
unfolding add_if
add_record settings lib kind user db = do
  checked ← can_add settings lib kind user db
  add_if lib kind checked
