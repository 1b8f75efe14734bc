-- ===== src/Users/Organizations/Reach.antt =====
-- Every sequence of operations on organizations keeps the memberships sound.
use tresqu_api.Common.{
  ℕ, ◌≡◌, refl, sym, ap, subst, ◌∙◌, true, false, not, ◌&&◌, some, List, [], ◌∷◌, ◌==◌, find?,
  Bool-cases, Option-cases, inl, inr,
}
use tresqu_api.Common.Int.{ℤ}
use tresqu_api.Common.Dict.{lookup, lookup-insert_self}
use tresqu_api.Users.Models.{
  PlanName, basic, business, User, Organization, OrganizationInvitation, InvitationStatus, pending,
  accepted, rejected, expired, Role, member, Db, save_user,
}
use tresqu_api.Users.Plans.{get_plan, downgrade_to_basic, days_after, same_plan}
use tresqu_api.Users.Organizations.{
  Answer, is_member_row, is_member, can_add_members, current_member_count, create_membership,
  assign_business, add_member, delete_membership, is_admin, remove_member, add_initial,
  create_organization, save_invitation, is_expired, accept_if, accept_pending, accept, reject,
  accept_by, reject_by,
}
use tresqu_api.Users.Organizations.Members.{
  roster, IsSound, joined-IsSound, founded-IsSound, left-IsSound,
}

pub get_plan-roster : (name : PlanName) (db : Db) → roster (get_plan name db).1 ≡ roster db
unfolding get_plan
get_plan-roster name db = elim (Option-cases (find? (λ p. same_plan p.name name) db.plans)) [
  | inl n ↦ rw (n, get_plan) refl
  | inr (p, s) ↦ rw (s, get_plan) refl
]

pub assign_business-roster : (user : User) (db : Db) → roster (assign_business user db) ≡ roster db
unfolding assign_business save_user
assign_business-roster user db = get_plan-roster business db

downgrade_to_basic-roster :
    (user : User) (db : Db) → roster (downgrade_to_basic user db).1 ≡ roster db
unfolding downgrade_to_basic save_user
downgrade_to_basic-roster user db = get_plan-roster basic db

abbrev pub SoundDb : Db → Type 0
SoundDb db = IsSound (roster db)

add_member-SoundDb :
    (id : ℕ) (o : Organization) (user : User) (role : Role) (db : Db)
    → lookup id db.organizations ≡ some o
    → SoundDb db
    → SoundDb (add_member id o user role db).1
unfolding add_member create_membership is_member can_add_members current_member_count
add_member-SoundDb id o user role db found s = elim (Bool-cases (can_add_members id o db)) [
  | inr f ↦ rw (f, add_member) s
  | inl t ↦ elim (Bool-cases (is_member id user.id db)) [
    | inl i ↦ rw (t, i, add_member) s
    | inr n ↦
        rw (t, n, add_member)
          (subst (λ r. IsSound r)
            (sym (assign_business-roster user (create_membership id user.id role db)))
            (joined-IsSound db.memberships db.organizations db.next_organization s id user.id role o
              found t n))
  ]
]

remove_member-SoundDb :
    (id : ℕ) (o : Organization) (user : User) (db : Db)
    → lookup id db.organizations ≡ some o
    → SoundDb db
    → SoundDb (remove_member id o user db).1
unfolding remove_member
remove_member-SoundDb id o user db found s =
    elim (Option-cases (find? (is_member_row id user.id) db.memberships)) [
      | inl n ↦ rw (n, remove_member) s
      | inr (m, r) ↦ elim (Bool-cases (is_admin m.role && o.admin_user == user.id)) [
        | inl t ↦ rw (r, remove_member, t) s
        | inr f ↦
            rw (r, remove_member, f)
              (subst (λ r. IsSound r)
                (sym (
                  downgrade_to_basic-roster user
                    (record db { memberships = delete_membership id user.id db.memberships })))
                (left-IsSound db.memberships db.organizations db.next_organization s id user.id o m
                  found r f))
      ]
    ]

add_member-organizations :
    (id : ℕ) (o : Organization) (user : User) (role : Role) (db : Db)
    → (add_member id o user role db).1.organizations ≡ db.organizations
unfolding add_member create_membership
add_member-organizations id o user role db = elim (Bool-cases (can_add_members id o db)) [
  | inr f ↦ rw (f, add_member) refl
  | inl t ↦ elim (Bool-cases (is_member id user.id db)) [
    | inl i ↦ rw (t, i, add_member) refl
    | inr n ↦
        rw (t, n, add_member)
          (ap (λ r. r.1) (assign_business-roster user (create_membership id user.id role db)))
  ]
]

add_initial-SoundDb :
    (id : ℕ) (o : Organization) (users : List User) (db : Db)
    → lookup id db.organizations ≡ some o
    → SoundDb db
    → SoundDb (add_initial id o users db)
unfolding add_initial
add_initial-SoundDb id o [] db found s = s
add_initial-SoundDb id o (user ∷ users) db found s =
    elim (Bool-cases (not (user.id == o.admin_user) && can_add_members id o db)) [
      | inl t ↦
          rw (t, add_initial)
            (let db1 = (add_member id o user member db).1 in
              add_initial-SoundDb id o users db1
                (ap (lookup id) (add_member-organizations id o user member db) ∙ found)
                (add_member-SoundDb id o user member db found s))
      | inr f ↦ rw (f, add_initial) (add_initial-SoundDb id o users db found s)
    ]

founded : User → ℤ → Db → Organization
founded user max_members db = record {
  admin_user = user.id;
  max_members = max_members;
  subscription_end_date = days_after 365 db.now;
}

create_organization-SoundDb :
    (user : User) (users : List User) (max_members : ℤ) (db : Db)
    → SoundDb db
    → SoundDb (create_organization user users max_members db).1
unfolding create_organization create_membership founded
create_organization-SoundDb user users max_members db s =
    let db1 = assign_business user db in
    let s1 : SoundDb db1 = subst (λ r. IsSound r) (sym (assign_business-roster user db)) s in
    add_initial-SoundDb db1.next_organization (founded user max_members db) users _
      (lookup-insert_self db1.next_organization (founded user max_members db) db1.organizations)
      (founded-IsSound db1.memberships db1.organizations db1.next_organization s1 user.id
        (founded user max_members db) refl)

accept_if-SoundDb :
    (key : ℕ) (invitation : OrganizationInvitation) (result : Answer × Db)
    → SoundDb result.1
    → SoundDb (accept_if key invitation result).1
unfolding accept_if save_invitation
accept_if-SoundDb key invitation ((true, message), db) s = s
accept_if-SoundDb key invitation ((false, message), db) s = s

accept_pending-SoundDb :
    (key : ℕ) (invitation : OrganizationInvitation) (o : Organization) (user : User) (db : Db)
    → lookup invitation.organization db.organizations ≡ some o
    → SoundDb db
    → SoundDb (accept_pending key invitation o user db).1
unfolding accept_pending save_invitation
accept_pending-SoundDb key invitation o user db found s =
    elim (Bool-cases (is_expired invitation db)) [
      | inl t ↦ rw (t, accept_pending) s
      | inr f ↦ elim (Bool-cases (can_add_members invitation.organization o db)) [
        | inr g ↦ rw (f, g, accept_pending) s
        | inl t ↦
            rw (f, t, accept_pending)
              (accept_if-SoundDb key invitation
                (add_member invitation.organization o user member db)
                (add_member-SoundDb invitation.organization o user member db found s))
      ]
    ]

accept-SoundDb :
    (status : InvitationStatus) (key : ℕ) (invitation : OrganizationInvitation) (o : Organization)
    (user : User) (db : Db)
    → lookup invitation.organization db.organizations ≡ some o
    → SoundDb db
    → SoundDb (accept_by status key invitation o user db).1
unfolding accept_by
accept-SoundDb pending key invitation o user db found s =
    accept_pending-SoundDb key invitation o user db found s
accept-SoundDb accepted key invitation o user db found s = s
accept-SoundDb rejected key invitation o user db found s = s
accept-SoundDb expired key invitation o user db found s = s

reject-SoundDb :
    (status : InvitationStatus) (key : ℕ) (invitation : OrganizationInvitation) (db : Db)
    → SoundDb db
    → SoundDb (reject_by status key invitation db).1
unfolding reject_by save_invitation
reject-SoundDb pending key invitation db s = s
reject-SoundDb accepted key invitation db s = s
reject-SoundDb rejected key invitation db s = s
reject-SoundDb expired key invitation db s = s

-- One operation on an organization that is stored under the key `id`.
pub data Step (db : Db) : Db → Type 0 where
  adds :
      (id : ℕ) (o : Organization) (user : User) (role : Role)
      → lookup id db.organizations ≡ some o
      → Step db (add_member id o user role db).1
  removes :
      (id : ℕ) (o : Organization) (user : User)
      → lookup id db.organizations ≡ some o
      → Step db (remove_member id o user db).1
  creates :
      (user : User) (users : List User) (max_members : ℤ)
      → Step db (create_organization user users max_members db).1
  accepts :
      (key : ℕ) (invitation : OrganizationInvitation) (o : Organization) (user : User)
      → lookup invitation.organization db.organizations ≡ some o
      → Step db (accept key invitation o user db).1
  rejects : (key : ℕ) (invitation : OrganizationInvitation) → Step db (reject key invitation db).1

pub data Steps (db : Db) : Db → Type 0 where
  none_yet : Steps db db
  then_one : {db1 db2 : Db} → Steps db db1 → Step db1 db2 → Steps db db2

Step-SoundDb : {db db1 : Db} → Step db db1 → SoundDb db → SoundDb db1
unfolding accept reject
Step-SoundDb {db = db} (adds id o user role found) s = add_member-SoundDb id o user role db found s
Step-SoundDb {db = db} (removes id o user found) s = remove_member-SoundDb id o user db found s
Step-SoundDb {db = db} (creates user users m) s = create_organization-SoundDb user users m db s
Step-SoundDb {db = db} (accepts key i o user found) s =
    accept-SoundDb i.status key i o user db found s
Step-SoundDb {db = db} (rejects key i) s = reject-SoundDb i.status key i db s

-- Whatever organizations are created and members join, leave and accept invitations: an organization
-- never has more members than it may (one, at least), no user is a member of one twice, and the
-- administrator stays a member with the role of administrator, if this held before.
pub Steps-SoundDb : (db db1 : Db) → Steps db db1 → SoundDb db → SoundDb db1
Steps-SoundDb db _ none_yet s = s
Steps-SoundDb db _ (then_one {db1 = d} steps step) s =
    Step-SoundDb step (Steps-SoundDb db d steps s)
