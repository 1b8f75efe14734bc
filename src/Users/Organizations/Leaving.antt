-- ===== src/Users/Organizations/Leaving.antt =====
-- The plan of a user who leaves an organization.
use tresqu_api.Common.{
  ℕ, ◌≡◌, refl, ap, ◌∙◌, true, false, ◌&&◌, none, some, List, [], ◌∷◌, ◌==◌, find?, find?_passes,
  any, arith, Bool-cases, Option-cases, inl, inr,
}
use tresqu_api.Common.Dict.{lookup, lookup-insert_self}
use tresqu_api.Users.Models.{
  PlanName, basic, premium, business, User, Organization, OrganizationMembership, Db, save_user,
}
use tresqu_api.Users.Plans.{
  get_plan, downgrade_to_basic, is_business, has_plan, same_plan, default_plan,
}
use tresqu_api.Users.Organizations.Reach.{get_plan-roster}
use tresqu_api.Users.Organizations.{
  Answer, is_member_row, is_member, delete_membership, is_admin, remove_member,
}

default_name : (name : PlanName) → same_plan (default_plan name).name name ≡ true
unfolding default_plan same_plan
default_name basic = refl
default_name premium = refl
default_name business = refl

-- The plan that a lookup by name gives has that name.
get_plan-name : (name : PlanName) (db : Db) → same_plan (get_plan name db).0.name name ≡ true
unfolding get_plan
get_plan-name name db = elim (Option-cases (find? (λ p. same_plan p.name name) db.plans)) [
  | inl n ↦ rw (n, get_plan) (default_name name)
  | inr (p, s) ↦ rw (s, get_plan) (find?_passes (λ p. same_plan p.name name) db.plans p s)
]

not_business : (name : PlanName) → same_plan name basic ≡ true → same_plan name business ≡ false
unfolding same_plan
not_business basic h = refl
not_business premium h = cc
not_business business h = cc

still_member :
    (id other user : ℕ) (ms : List OrganizationMembership)
    → ¬ (other ≡ id)
    → any (is_member_row other user) (delete_membership id user ms)
      ≡ any (is_member_row other user) ms
unfolding delete_membership is_member_row
still_member id other user [] n = refl
still_member id other user (m ∷ ms) n = ground (arith, still_member id other user ms n)

-- What is left of a user who was a member of `other` too.
abbrev pub LosesPlan : ℕ → ℕ → Answer × Db → Type 0
LosesPlan other user ((false, message), db) = is_member other user db ≡ true
LosesPlan other user ((true, message), db) =
    (is_member other user db ≡ true)
    × (u : User) × (lookup user db.users ≡ some u)
    × (is_business u ≡ false)

abbrev left : User → Db → User
left user db = record user {
  subscription_plan = some (get_plan basic db).0;
  subscription_active = true;
  subscription_start_date = some db.now;
  subscription_end_date = none;
}

module _ (id other : ℕ) (o : Organization) (user : User) (db : Db) (different : ¬ (other ≡ id))
    (also : is_member other user.id db ≡ true) where
  removed : Db
  removed = record db { memberships = delete_membership id user.id db.memberships }

  after_removal : LosesPlan other user.id (
    (true, "Usuario eliminado correctamente de la organización"),
    (downgrade_to_basic user removed).1,
  )
  unfolding downgrade_to_basic save_user is_business has_plan is_member removed
  after_removal = (
    ap (λ r. any (is_member_row other user.id) r.0) (get_plan-roster basic removed)
        ∙ still_member id other user.id db.memberships different
        ∙ also,
    left user removed,
    lookup-insert_self user.id (left user removed) (get_plan basic removed).1.users,
    rw (not_business (get_plan basic removed).0.name (get_plan-name basic removed)) refl,
  )

  -- A removal from one organization, for a user who is also a member of another, leaves that other
  -- membership; where it succeeds, the stored user has no business plan any more.
  pub remove_member-LosesPlan : LosesPlan other user.id (remove_member id o user db)
  unfolding remove_member removed
  remove_member-LosesPlan = elim (Option-cases (find? (is_member_row id user.id) db.memberships)) [
    | inl n ↦ rw (n, remove_member) also
    | inr (m, r) ↦ elim (Bool-cases (is_admin m.role && o.admin_user == user.id)) [
      | inl t ↦ rw (r, remove_member, t) also
      | inr f ↦ rw (r, remove_member, f) after_removal
    ]
  ]
