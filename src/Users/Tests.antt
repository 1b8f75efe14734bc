-- ===== src/Users/Tests.antt =====
-- Runs of the billing periods and of the monthly limits, and their theorems at such inputs.
mod Organizations
use tresqu_api.Common.{
  ℕ, ◌+◌, ◌≤◌, ◌<◌, ◌≡◌, ◌⊎◌, ◌↔◌, refl, Bool, true, false, Option, none, some, [], ◌∷◌, arith,
}
use tresqu_api.Common.Int.{pos}
use tresqu_api.Common.Dates.{
  Date, date, Datetime, IsDate, is_before, is_same_date, make_date, days_in_month, is_leap,
  yesterday,
}
use tresqu_api.Users.Models.{SubscriptionPlan, User, MonthlyUsage, Db, basic, premium}
use tresqu_api.Users.Plans.{
  get_max_expenses, get_plan_limits, assign_basic_plan_if_none, Settings, expense, income,
  get_upgrade_message,
}
use tresqu_api.Users.Periods.{
  next_month_first, Period, start_in_month, period_from, period_with, Relativedelta,
  calculate_calendar_month_period, calculate_anniversary_period, calculate_user_billing_period,
}
use tresqu_api.Users.Periods.Calendar.{Contains, month_period, calendar_partition, following}
use tresqu_api.Users.Periods.Anniversary.{IsRelativedelta, clamp, preceding, anniversary_partition}
use tresqu_api.Users.Periods.Late.{anniversary_late}
use tresqu_api.Users.Usage.{
  calculate_period_from_record, is_same_period, get_current_usage, max_records, can_add,
  usage_can_add, usable, usage_for, find_usage, is_usage_of, new_usage, increment, used, add_record,
  get_or_create_current, get_or_create_usage, increment_monthly_count, decrement_monthly_count,
}
use tresqu_api.Users.Usage.Rows.{row_of, obtained}
use tresqu_api.Users.Usage.Records.{get_or_create_current_lem}
use tresqu_api.Users.Usage.Deletions.{decrement-increment, decrement_elsewhere}
use tresqu_api.Users.Usage.Counting.{IsWithin}
use tresqu_api.Users.Usage.Creation.{add_record_lem}
use tresqu_api.Users.Usage.Invariant.{
  Reaches, start, wait, create, delete, Reaches-IsWithin, basic_limit,
}

abbrev dateutil : Relativedelta
dateutil = record {
  plus_month = λ t. clamp (following t.year t.month) t.day;
  minus_month = λ t. clamp (preceding t.year t.month) t.day;
}

dateutil-IsRelativedelta : IsRelativedelta dateutil
dateutil-IsRelativedelta = record { plus_month_eq = λ t v h. refl; minus_month_eq = λ t v h. refl }

abbrev moment : Date → Datetime
moment t = record { date = t; time = 0 }

abbrev basic_plan : SubscriptionPlan
basic_plan = record { name = basic; unlimited_records = false }

abbrev premium_plan : SubscriptionPlan
premium_plan = record { name = premium; unlimited_records = true }

abbrev ana : User
ana = record {
  id = 1;
  subscription_plan = some basic_plan;
  subscription_active = true;
  subscription_start_date = some (moment (date 2026 1 10));
  subscription_end_date = none;
}

-- A PREMIUM user since `t`.
abbrev since : Date → User
since t = record ana {
  subscription_plan = some premium_plan;
  subscription_start_date = some (moment t);
}

abbrev at : Date → Db
at t = record {
  now = moment t;
  plans = basic_plan ∷ premium_plan ∷ [];
  users = [];
  subscriptions = [];
  usages = [];
  organizations = [];
  next_organization = 1;
  memberships = [];
  invitations = [];
}

abbrev two : Settings
two = record { basic_plan_max_expenses = 2; basic_plan_max_incomes = 1 }

february : calculate_calendar_month_period (date 2028 2 10) ≡ some (month_period 2028 2)
unfolding calculate_calendar_month_period next_month_first make_date days_in_month is_leap yesterday
february = refl

calendar_partition_example :
    Contains (month_period 2028 2) (date 2028 2 29)
    ↔ (calculate_calendar_month_period (date 2028 2 29) ≡ some (month_period 2028 2))
unfolding days_in_month is_leap
calendar_partition_example =
    calendar_partition (date 2028 2 10) (date 2028 2 29) (month_period 2028 2) (ground arith)
      (ground arith) (omega arith) (omega arith) february

abbrev from_the_tenth : Period
from_the_tenth = record { period_start = date 2028 2 10; period_end = date 2028 3 9 }

anniversary :
    calculate_anniversary_period dateutil (since (date 2026 1 10)) (date 2028 3 4)
    ≡ some from_the_tenth
unfolding calculate_anniversary_period start_in_month period_from period_with make_date
    days_in_month is_leap yesterday is_before
anniversary = refl

anniversary_partition_example : Contains from_the_tenth (date 2028 2 29) ↔ (
    calculate_anniversary_period dateutil (since (date 2026 1 10)) (date 2028 2 29)
    ≡ some from_the_tenth)
unfolding days_in_month is_leap
anniversary_partition_example =
    anniversary_partition dateutil dateutil-IsRelativedelta 10 (omega arith) (omega arith)
      (since (date 2026 1 10)) (moment (date 2026 1 10)) refl refl (date 2028 3 4) (date 2028 2 29)
      from_the_tenth (ground arith) (ground arith) (omega arith) (omega arith) (omega arith)
      (omega arith) anniversary

anniversary_late_example :
    (p : Period) × (calculate_anniversary_period dateutil (since (date 2026 1 31)) (date 2026 3 30)
      ≡ some p)
    × (is_before p.period_end (date 2026 3 30) ≡ true)
anniversary_late_example =
    anniversary_late dateutil dateutil-IsRelativedelta 2026 (omega arith) (omega arith)
      (since (date 2026 1 31)) (moment (date 2026 1 31)) refl refl

in_march : calculate_user_billing_period dateutil ana (date 2026 3 4) ≡ some (month_period 2026 3)
unfolding calculate_user_billing_period calculate_calendar_month_period next_month_first make_date
    days_in_month is_leap yesterday
in_march = refl

abbrev one_more : Db
one_more =
    increment expense (obtained 1 (month_period 2026 3) (at (date 2026 3 4))).0
      (obtained 1 (month_period 2026 3) (at (date 2026 3 4))).2

counts : increment_monthly_count dateutil expense ana (at (date 2026 3 4)) ≡ some one_more
unfolding increment_monthly_count get_current_usage get_or_create_current
    calculate_user_billing_period calculate_calendar_month_period next_month_first make_date
    days_in_month is_leap yesterday usable usage_for find_usage get_or_create_usage
counts = refl

decrement-increment_example :
    row_of 1 (month_period 2026 3) (decrement_monthly_count expense ana (date 2026 3 4) one_more)
    ≡ some (obtained 1 (month_period 2026 3) (at (date 2026 3 4))).0
decrement-increment_example =
    decrement-increment dateutil ana (month_period 2026 3) (ground arith) expense
      (at (date 2026 3 4)) one_more (date 2026 3 4) in_march refl refl counts

add_record_lem_example :
    ((used expense (obtained 1 (month_period 2026 3) (at (date 2026 3 4))).0 < 2)
      × (add_record two dateutil expense ana (at (date 2026 3 4)) ≡ some ("", ana, one_more)))
    ⊎ ((2 ≤ used expense (obtained 1 (month_period 2026 3) (at (date 2026 3 4))).0)
        × (add_record two dateutil expense ana (at (date 2026 3 4))
            ≡ some (
              get_upgrade_message two basic expense,
              ana,
              (obtained 1 (month_period 2026 3) (at (date 2026 3 4))).2,
            )))
unfolding max_records get_max_expenses get_plan_limits
add_record_lem_example =
    add_record_lem two dateutil ana basic_plan refl (month_period 2026 3) (ground arith)
      (at (date 2026 3 4)) in_march expense 2 refl refl

adds : add_record two dateutil expense ana (at (date 2026 3 4)) ≡ some ("", ana, one_more)
unfolding add_record can_add usage_can_add max_records get_max_expenses get_plan_limits
    assign_basic_plan_if_none increment_monthly_count get_current_usage get_or_create_current
    calculate_user_billing_period calculate_calendar_month_period next_month_first make_date
    days_in_month is_leap yesterday usable usage_for find_usage get_or_create_usage is_usage_of
    new_usage used calculate_period_from_record is_same_period is_same_date
adds = refl

a_creation : Reaches two dateutil ana (at (date 2026 3 4)) one_more
unfolding days_in_month is_leap
a_creation = create expense (ground arith) (omega arith) start adds

Reaches-IsWithin_example : IsWithin expense 2 1 one_more.usages
Reaches-IsWithin_example =
    Reaches-IsWithin two dateutil ana basic_plan refl refl refl expense (at (date 2026 3 4))
      one_more a_creation tt

abbrev late_february : Period
late_february = record { period_start = date 2026 2 10; period_end = date 2026 3 9 }

in_february :
    calculate_user_billing_period dateutil (since (date 2026 1 10)) (date 2026 3 4)
    ≡ some late_february
unfolding calculate_user_billing_period calculate_anniversary_period start_in_month period_from
    period_with make_date days_in_month is_leap yesterday is_before
in_february = refl

abbrev counted_in_february : Db
counted_in_february =
    increment expense (obtained 1 late_february (at (date 2026 3 4))).0
      (obtained 1 late_february (at (date 2026 3 4))).2

counts_in_february :
    increment_monthly_count dateutil expense (since (date 2026 1 10)) (at (date 2026 3 4))
    ≡ some counted_in_february
unfolding increment_monthly_count get_current_usage get_or_create_current
    calculate_user_billing_period calculate_anniversary_period start_in_month period_from
    period_with is_before make_date days_in_month is_leap yesterday usable usage_for find_usage
    get_or_create_usage
counts_in_february = refl

decrement_elsewhere_example :
    (u : MonthlyUsage) × (row_of 1 late_february (
        decrement_monthly_count expense
          (since (date 2026 1 10))
          (date 2026 3 4)
          counted_in_february)
      ≡ some u)
    × (used expense u ≡ used expense (obtained 1 late_february (at (date 2026 3 4))).0 + 1)
decrement_elsewhere_example =
    decrement_elsewhere dateutil (since (date 2026 1 10)) late_february (ground arith) expense
      (at (date 2026 3 4)) counted_in_february (date 2026 3 4) in_february (omega arith)
      counts_in_february
