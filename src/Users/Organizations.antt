-- ===== src/Users/Organizations.antt =====
-- Organizations, their members and their invitations (users/models.py, Organization and
-- OrganizationInvitation; users/views.py, the checks on who may manage an organization).
pub mod Members
pub mod Reach
pub mod Invitations
pub mod Leaving
use Prim.Native.String
use tresqu_api.Common.{
  ℕ, ◌+◌, Bool, true, false, not, ◌&&◌, Option, none, some, List, [], ◌∷◌, ◌++◌, String, ◌==◌,
  if◌then◌else◌, find?, count_if, any,
}
use tresqu_api.Common.Int.{ℤ, pos, ltb_ℤ}
use tresqu_api.Common.Dict.{Dict, lookup, insert}
use tresqu_api.Common.Dates.{Datetime, is_reached}
use tresqu_api.Users.Models.{
  PlanName, basic, premium, business, User, Organization, OrganizationMembership, Role, admin,
  member, InvitationStatus, pending, accepted, rejected, expired, OrganizationInvitation, Db,
  save_user,
}
use tresqu_api.Users.Plans.{get_plan, days_after, downgrade_to_basic}

-- What a method answers: whether it succeeded, and its message.
abbrev pub Answer : Type 0
Answer = Bool × String

unfoldable pub is_member_row : ℕ → ℕ → OrganizationMembership → Bool
is_member_row organization user m = m.organization == organization && m.user == user

unfoldable pub is_member : ℕ → ℕ → Db → Bool
is_member organization user db = any (is_member_row organization user) db.memberships

unfoldable pub current_member_count : ℕ → Db → ℕ
current_member_count organization db = count_if (λ m. m.organization == organization) db.memberships

-- `id` is the organization's key.
unfoldable pub can_add_members : ℕ → Organization → Db → Bool
can_add_members id organization db =
    ltb_ℤ (pos (current_member_count id db)) organization.max_members

-- `OrganizationMembership.objects.create(...)`
unfoldable pub create_membership : ℕ → ℕ → Role → Db → Db
create_membership organization user role db =
    let m : OrganizationMembership = record {
      organization = organization;
      user = user;
      role = role;
    } in
    record db { memberships = db.memberships ++ m ∷ [] }

-- The business plan for a user, saved.
unfoldable pub assign_business : User → Db → Db
assign_business user db =
    let (plan, db1) = get_plan business db in
    save_user (record user { subscription_plan = some plan; subscription_active = true }) db1

unfoldable pub add_member : ℕ → Organization → User → Role → Db → Answer × Db
add_member id organization user role db =
    if not (can_add_members id organization db)
    then ((false, "Se ha alcanzado el límite de miembros para esta organización"), db)
    else if is_member id user.id db
    then ((false, "El usuario ya es miembro de esta organización"), db)
    else (
      (true, "Usuario añadido correctamente a la organización"),
      assign_business user (create_membership id user.id role db),
    )

pub delete_membership : ℕ → ℕ → List OrganizationMembership → List OrganizationMembership
delete_membership organization user [] = []
delete_membership organization user (m ∷ ms) =
    let rest = delete_membership organization user ms in
    if is_member_row organization user m then ms else m ∷ rest

pub is_admin : Role → Bool
is_admin admin = true
is_admin member = false

pub remove_member : ℕ → Organization → User → Db → Answer × Db
unfolding is_admin
remove_member id organization user db = elim (find? (is_member_row id user.id) db.memberships) [
  | none ↦ ((false, "El usuario no es miembro de esta organización"), db)
  | some m ↦
      if is_admin m.role && organization.admin_user == user.id
      then ((false, "No puedes eliminar al administrador principal de la organización"), db)
      else (
        (true, "Usuario eliminado correctamente de la organización"),
        (downgrade_to_basic user
            (record db { memberships = delete_membership id user.id db.memberships })).1,
      )
]

-- The loop over `initial_members`; `organization.add_member(user)` with the default role.
pub add_initial : ℕ → Organization → List User → Db → Db
add_initial id organization [] db = db
add_initial id organization (user ∷ users) db =
    let added = (add_member id organization user member db).1 in
    add_initial id organization users (
      if not (user.id == organization.admin_user) && can_add_members id organization db
      then added
      else db)

-- The new organization's key, and the database.
pub create_organization : User → List User → ℤ → Db → ℕ × Db
create_organization admin_user initial_members max_members db =
    let db1 = assign_business admin_user db in
    let id = db1.next_organization in
    let organization : Organization = record {
      admin_user = admin_user.id;
      max_members = max_members;
      subscription_end_date = days_after 365 db.now;
    } in
    let db2 = record db1 {
      organizations = insert id organization db1.organizations;
      next_organization = id + 1;
    } in
    (id, add_initial id organization initial_members (create_membership id admin_user.id admin db2))

-- `invitation.save()`
pub save_invitation : ℕ → OrganizationInvitation → InvitationStatus → Db → Db
save_invitation key invitation status db = record db {
  invitations = insert key (record invitation { status = status }) db.invitations;
}

pub status_display : InvitationStatus → String
status_display pending = "pendiente"
status_display accepted = "aceptada"
status_display rejected = "rechazada"
status_display expired = "expirada"

already : InvitationStatus → String
already status = String.◌++◌ "La invitación ya ha sido " (status_display status)

-- `is_expired`: `now > expires_at`
pub is_expired : OrganizationInvitation → Db → Bool
is_expired invitation db = not (is_reached invitation.expires_at db.now)

pub accept_if : ℕ → OrganizationInvitation → Answer × Db → Answer × Db
accept_if key invitation ((false, message), db) = ((false, message), db)
accept_if key invitation ((true, message), db) =
    ((true, message), save_invitation key invitation accepted db)

pub accept_pending : ℕ → OrganizationInvitation → Organization → User → Db → Answer × Db
unfolding accept_if
accept_pending key invitation organization user db =
    if is_expired invitation db
    then ((false, "La invitación ha expirado"), save_invitation key invitation expired db)
    else if not (can_add_members invitation.organization organization db)
    then (
      (false, "La organización ha alcanzado su límite de miembros"),
      save_invitation key invitation rejected db,
    )
    else accept_if key invitation (add_member invitation.organization organization user member db)

pub accept_by :
    InvitationStatus → ℕ → OrganizationInvitation → Organization → User → Db → Answer × Db
unfolding accept_pending already
accept_by pending key invitation organization user db =
    accept_pending key invitation organization user db
accept_by status key invitation organization user db = ((false, already status), db)

-- `organization` is `invitation.organization`.
pub accept : ℕ → OrganizationInvitation → Organization → User → Db → Answer × Db
unfolding accept_by
accept key invitation organization user db =
    accept_by invitation.status key invitation organization user db

pub reject_by : InvitationStatus → ℕ → OrganizationInvitation → Db → Answer × Db
unfolding already
reject_by pending key invitation db =
    ((true, "Invitación rechazada"), save_invitation key invitation rejected db)
reject_by status key invitation db = ((false, already status), db)

pub reject : ℕ → OrganizationInvitation → Db → Answer × Db
unfolding reject_by
reject key invitation db = reject_by invitation.status key invitation db
