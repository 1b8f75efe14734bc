-- ===== src/Users/Usage/Creation.antt =====
-- The creation of an expense or an income under the limits of the plan.
use tresqu_api.Common.{
  ℕ, ◌<◌, ◌≤◌, ◌≡◌, refl, ap, ◌∙◌, Bool, true, false, some, arith, Bool-cases, ◌⊎◌, inl, inr,
  if◌then◌else◌, leb, String,
}
use tresqu_api.Users.Models.{SubscriptionPlan, User, MonthlyUsage, Db}
use tresqu_api.Users.Plans.{Settings, RecordType, assign_basic_plan_if_none, get_upgrade_message}
use tresqu_api.Users.Periods.{Period, Relativedelta, calculate_user_billing_period}
use tresqu_api.Users.Usage.{
  get_current_usage, increment, used, max_records, usage_can_add, can_add, increment_monthly_count,
  add_record, add_if,
}
use tresqu_api.Users.Usage.Rows.{obtained, created_row, created_again, created_now}
use tresqu_api.Users.Usage.Records.{HasMonth, get_or_create_current_lem, increment_monthly_count-eq}

module _ (settings : Settings) (lib : Relativedelta) (user : User) (plan : SubscriptionPlan)
    (has : user.subscription_plan ≡ some plan) where
  assigned : (db : Db) → assign_basic_plan_if_none user db ≡ (user, db)
  unfolding assign_basic_plan_if_none
  assigned db = simp (has, assign_basic_plan_if_none)

  module _ (p : Period) (ok : HasMonth p) (db : Db)
      (now : calculate_user_billing_period lib user db.now.date ≡ some p) where
    can_add-eq :
        (kind : RecordType)
        → can_add settings lib kind user db
          ≡ some (
            usage_can_add settings kind user (obtained user.id p db).0,
            user,
            (obtained user.id p db).2,
          )
    unfolding can_add assign_basic_plan_if_none get_current_usage
    can_add-eq kind =
        rw (assigned db, can_add, get_or_create_current_lem lib user p ok db now, get_current_usage)
          refl

    -- The same row again, for the signal.
    increment-again :
        (kind : RecordType)
        → increment_monthly_count lib kind user (obtained user.id p db).2
          ≡ some (increment kind (obtained user.id p db).0 (obtained user.id p db).2)
    increment-again kind =
        let later =
          ap (λ n. calculate_user_billing_period lib user n.date) (created_now user.id p db)
          ∙ now in
        increment_monthly_count-eq lib user p ok kind (obtained user.id p db).2 later
        ∙ ap (λ c. some (increment kind c.0 c.2))
            (created_again user.id p (obtained user.id p db).2 (obtained user.id p db).0
              (created_row user.id p db))

    -- The answer of a creation: the check's message and the database after it.
    answer : RecordType → Bool × String → String × User × Db
    answer kind (false, message) = (message, user, (obtained user.id p db).2)
    answer kind (true, message) =
        (message, user, increment kind (obtained user.id p db).0 (obtained user.id p db).2)

    add_if-eq :
        (kind : RecordType) (check : Bool × String)
        → add_if lib kind (check, user, (obtained user.id p db).2) ≡ some (answer kind check)
    unfolding add_if answer
    add_if-eq kind (false, message) = refl
    add_if-eq kind (true, message) = rw (increment-again kind, add_if) refl

    add_record-eq :
        (kind : RecordType)
        → add_record settings lib kind user db
          ≡ some (answer kind (usage_can_add settings kind user (obtained user.id p db).0))
    unfolding add_record
    add_record-eq kind =
        rw (can_add-eq kind, add_record)
          (add_if-eq kind (usage_can_add settings kind user (obtained user.id p db).0))

    module _ (kind : RecordType) (limit : ℕ) (limited : plan.unlimited_records ≡ false)
        (max : max_records settings kind plan.name ≡ some limit) where
      usage_can_add-eq :
          (u : MonthlyUsage)
          → usage_can_add settings kind user u ≡ (
              if leb limit (used kind u)
              then (false, get_upgrade_message settings plan.name kind)
              else (true, ""))
      unfolding usage_can_add
      usage_can_add-eq u = rw (has, usage_can_add, limited, max) refl

      abbrev full : Bool
      full = leb limit (used kind (obtained user.id p db).0)

      refused :
          full ≡ true
          → usage_can_add settings kind user (obtained user.id p db).0
            ≡ (false, get_upgrade_message settings plan.name kind)
      refused t = usage_can_add-eq (obtained user.id p db).0 ∙ rw t refl

      allowed :
          full ≡ false → usage_can_add settings kind user (obtained user.id p db).0 ≡ (true, "")
      allowed f = usage_can_add-eq (obtained user.id p db).0 ∙ rw f refl

      -- For a user of a plan that has a limit, in a period that begins in the years 1 to 9998: the
      -- creation of a record either counts it in the usage row of that period, where the row is
      -- below the limit, or, at the limit, answers with the message of the limit and counts
      -- nothing.
      pub add_record_lem :
          ((used kind (obtained user.id p db).0 < limit)
            × (add_record settings lib kind user db
                ≡ some
                    ("", user, increment kind (obtained user.id p db).0 (obtained user.id p db).2)))
          ⊎ ((limit ≤ used kind (obtained user.id p db).0)
              × (add_record settings lib kind user db
                  ≡ some (
                    get_upgrade_message settings plan.name kind,
                    user,
                    (obtained user.id p db).2,
                  )))
      unfolding answer
      add_record_lem = elim (Bool-cases (leb limit (used kind (obtained user.id p db).0))) [
        | inl t ↦
            inr (ground arith, add_record-eq kind ∙ ap (λ c. some (answer kind c)) (refused t))
        | inr f ↦
            inl (ground arith, add_record-eq kind ∙ ap (λ c. some (answer kind c)) (allowed f))
      ]
