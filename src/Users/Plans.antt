-- ===== src/Users/Plans.antt =====
-- Plans and their limits: users/plan_limits.py, and the plan operations of users/models.py.
use tresqu_api.Common.{
  ℕ, ◌+◌, Bool, true, false, not, ◌&&◌, ◌||◌, Option, none, some, [], ◌∷◌, ◌++◌, map, String, ◌==◌,
  if◌then◌else◌, find?, is_some,
}
use Prim.Native.String
use tresqu_api.Common.Show.{show_ℕ}
use tresqu_api.Common.Dict.{Dict}
use tresqu_api.Common.Dates.{Datetime, plus_days, is_reached}
use tresqu_api.Users.Models.{
  PlanName, basic, premium, business, SubscriptionPlan, User, Subscription, Db, save_user,
}

-- The environment's `BASIC_PLAN_MAX_EXPENSES` and `BASIC_PLAN_MAX_INCOMES`.
pub record Settings : Type 0 where
  pub basic_plan_max_expenses : ℕ
  pub basic_plan_max_incomes : ℕ

pub record PlanLimits : Type 0 where
  pub max_expenses : Option ℕ
  pub max_incomes : Option ℕ

unfoldable pub get_plan_limits : Settings → PlanName → PlanLimits
get_plan_limits settings basic = record {
  max_expenses = some settings.basic_plan_max_expenses;
  max_incomes = some settings.basic_plan_max_incomes;
}
get_plan_limits settings premium = record { max_expenses = none; max_incomes = none }
get_plan_limits settings business = record { max_expenses = none; max_incomes = none }

unfoldable pub get_max_expenses : Settings → PlanName → Option ℕ
get_max_expenses settings plan = (get_plan_limits settings plan).max_expenses

unfoldable pub get_max_incomes : Settings → PlanName → Option ℕ
get_max_incomes settings plan = (get_plan_limits settings plan).max_incomes

pub is_unlimited_plan : Settings → PlanName → Bool
is_unlimited_plan settings plan =
    let limits = get_plan_limits settings plan in
    not (is_some limits.max_expenses) && not (is_some limits.max_incomes)

-- `expense` or `income`
pub data RecordType : Type 0 where
  expense income : RecordType

limit_reached : ℕ → String → String
limit_reached limit kind = String.◌++◌ "Has alcanzado el límite de " (
    String.◌++◌ (show_ℕ limit) (
      String.◌++◌ kind
        " mensuales del plan básico. Actualiza a Premium para registros ilimitados y más funciones. El límite se reinicia el próximo mes."))

pub get_upgrade_message : Settings → PlanName → RecordType → String
unfolding limit_reached
get_upgrade_message settings basic expense =
    limit_reached settings.basic_plan_max_expenses " gastos"
get_upgrade_message settings basic income =
    limit_reached settings.basic_plan_max_incomes " ingresos"
get_upgrade_message settings _ _ =
    "Límite mensual alcanzado. Contacta soporte para más información."

unfoldable pub same_plan : PlanName → PlanName → Bool
same_plan basic basic = true
same_plan premium premium = true
same_plan business business = true
same_plan _ _ = false

-- `unlimited_records` among the `defaults` of the three plans
unfoldable pub default_plan : PlanName → SubscriptionPlan
default_plan basic = record { name = basic; unlimited_records = false }
default_plan premium = record { name = premium; unlimited_records = true }
default_plan business = record { name = business; unlimited_records = true }

-- `get_basic_plan`, `get_premium_plan` and `get_business_plan`
unfoldable pub get_plan : PlanName → Db → SubscriptionPlan × Db
get_plan name db = elim (find? (λ p. same_plan p.name name) db.plans) [
  | some plan ↦ (plan, db)
  | none ↦ (default_plan name, record db { plans = db.plans ++ default_plan name ∷ [] })
]

unfoldable pub has_plan : (PlanName → Bool) → User → Bool
has_plan p user = elim user.subscription_plan [ none ↦ false | some plan ↦ p plan.name ]

pub is_premium : User → Bool
unfolding has_plan
is_premium user =
    has_plan (λ n. same_plan n premium || same_plan n business) user && user.subscription_active

unfoldable pub is_business : User → Bool
unfolding has_plan
is_business user = has_plan (λ n. same_plan n business) user && user.subscription_active

pub is_trial_expired : User → Datetime → Bool
is_trial_expired user now = elim user.subscription_end_date [
  | none ↦ false
  | some moment ↦ is_reached now moment
]

-- `now + timedelta(days=n)`
pub days_after : ℕ → Datetime → Datetime
days_after n moment = record moment { date = plus_days n moment.date }

unfoldable pub assign_basic_plan_if_none : User → Db → User × Db
assign_basic_plan_if_none user db = elim user.subscription_plan [
  | some plan ↦ (user, db)
  | none ↦
      let (plan, db1) = get_plan basic db in
      let user1 = record user {
        subscription_plan = some plan;
        subscription_active = true;
        subscription_start_date = some db.now;
        subscription_end_date = none;
      } in
      (user1, save_user user1 db1)
]

pub assign_premium_trial : User → Db → User × Db
assign_premium_trial user db =
    let (plan, db1) = get_plan premium db in
    let end_date = days_after 30 db.now in
    let user1 = record user {
      subscription_plan = some plan;
      subscription_active = true;
      subscription_start_date = some db.now;
      subscription_end_date = some end_date;
    } in
    let entry : Subscription = record {
      user = user.id;
      plan = plan;
      start_date = db.now;
      end_date = some end_date;
      is_active = true;
    } in
    let db2 = save_user user1 db1 in
    (user1, record db2 { subscriptions = db2.subscriptions ++ entry ∷ [] })

-- The end of the active subscriptions of a user.
close_subscription : ℕ → Datetime → Subscription → Subscription
close_subscription user now s =
    if s.user == user && s.is_active then record s { is_active = false; end_date = some now } else s

unfoldable pub downgrade_to_basic : User → Db → User × Db
unfolding close_subscription
downgrade_to_basic user db =
    let (plan, db1) = get_plan basic db in
    let closed = map (close_subscription user.id db.now) db1.subscriptions in
    let user1 = record user {
      subscription_plan = some plan;
      subscription_active = true;
      subscription_start_date = some db.now;
      subscription_end_date = none;
    } in
    let entry : Subscription = record {
      user = user.id;
      plan = plan;
      start_date = db.now;
      end_date = none;
      is_active = true;
    } in
    let db2 = save_user user1 db1 in (user1, record db2 { subscriptions = closed ++ entry ∷ [] })

-- The filter of management/commands/check_expired_trials.py.
pub is_past_end : Datetime → User → Bool
is_past_end now user = elim user.subscription_end_date [
  | none ↦ false
  | some moment ↦ user.subscription_active && not (is_reached moment now)
]

expire : ℕ → User → Db → ℕ × Db
expire count user db =
    if is_trial_expired user db.now && is_premium user
    then (count + 1, (downgrade_to_basic user db).1)
    else (count, db)

-- The command's loop, with the number of users downgraded so far.
pub check_expired_trials : Dict User → ℕ → Db → ℕ × Db
unfolding expire
check_expired_trials [] count db = (count, db)
check_expired_trials ((key, user) ∷ users) count db =
    let (count1, db1) = if is_past_end db.now user then expire count user db else (count, db) in
    check_expired_trials users count1 db1
