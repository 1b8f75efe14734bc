-- ===== src/Users/Models.antt =====
-- The rows of users/models.py and the database that the operations share. Numbers stand for primary
-- keys; a field that no operation modelled here reads is left out.
use tresqu_api.Common.{ℕ, Bool, Option, List}
use tresqu_api.Common.Int.{ℤ}
use tresqu_api.Common.Dict.{Dict, insert}
use tresqu_api.Common.Dates.{Datetime}

-- SubscriptionPlan.PLAN_CHOICES
pub data PlanName : Type 0 where
  basic premium business : PlanName

pub record SubscriptionPlan : Type 0 where
  pub name : PlanName
  pub unlimited_records : Bool

pub record User : Type 0 where
  pub id : ℕ
  pub subscription_plan : Option SubscriptionPlan
  pub subscription_active : Bool
  pub subscription_start_date : Option Datetime
  pub subscription_end_date : Option Datetime

pub record Subscription : Type 0 where
  pub user : ℕ
  pub plan : SubscriptionPlan
  pub start_date : Datetime
  pub end_date : Option Datetime
  pub is_active : Bool

pub record MonthlyUsage : Type 0 where
  pub user : ℕ
  pub year : ℕ
  pub month : ℕ
  pub expenses_count : ℕ
  pub incomes_count : ℕ

pub record Organization : Type 0 where
  pub admin_user : ℕ
  pub max_members : ℤ
  pub subscription_end_date : Datetime

-- OrganizationMembership.ROLE_CHOICES
pub data Role : Type 0 where
  admin member : Role

pub record OrganizationMembership : Type 0 where
  pub organization : ℕ
  pub user : ℕ
  pub role : Role

-- OrganizationInvitation.STATUS_CHOICES
pub data InvitationStatus : Type 0 where
  pending accepted rejected expired : InvitationStatus

pub record OrganizationInvitation : Type 0 where
  pub organization : ℕ
  pub status : InvitationStatus
  pub expires_at : Datetime

pub record Db : Type 0 where
  pub now : Datetime
  pub plans : List SubscriptionPlan
  pub users : Dict User
  pub subscriptions : List Subscription
  pub usages : List MonthlyUsage
  pub organizations : Dict Organization
  pub next_organization : ℕ
  pub memberships : List OrganizationMembership
  pub invitations : Dict OrganizationInvitation

-- `user.save()`
unfoldable pub save_user : User → Db → Db
save_user user db = record db { users = insert user.id user db.users }
