-- ===== src/Users/Organizations/Members.antt =====
-- Who is a member: at most `max_members` members, no one twice, and always the administrator.
use tresqu_api.Common.{
  ℕ, ◌+◌, ◌≤◌, max, ◌≡◌, refl, sym, ◌∙◌, Bool, true, false, ◌&&◌, none, some, some_inj, List, [],
  ◌∷◌, ◌++◌, ◌==◌, find?, count_if, count_if_none, count_if_snoc, any, arith,
}
use tresqu_api.Common.Int.{pos, ltb_ℤ, pos_part}
use tresqu_api.Common.Dict.{Dict, lookup, insert, lookup-insert}
use tresqu_api.Users.Models.{Organization, OrganizationMembership, Role, admin, Db}
use tresqu_api.Users.Organizations.{is_member_row, delete_membership, is_admin}

abbrev pub is_of : ℕ → OrganizationMembership → Bool
is_of id m = m.organization == id

abbrev pub is_admin_row : ℕ → ℕ → OrganizationMembership → Bool
is_admin_row id user m = is_member_row id user m && is_admin m.role

-- The memberships of all organizations, the organizations, and the next key.
abbrev pub Roster : Type 0
Roster = List OrganizationMembership × Dict Organization × ℕ

abbrev pub roster : Db → Roster
roster db = (db.memberships, db.organizations, db.next_organization)

-- The members that an organization may have; its administrator is one in any case.
abbrev pub capacity : Organization → ℕ
capacity o = max 1 (pos_part o.max_members)

pub record IsSound (r : Roster) : Type 0 where
  pub fits :
      (id : ℕ) (o : Organization) → lookup id r.1 ≡ some o → count_if (is_of id) r.0 ≤ capacity o
  pub unique : (id user : ℕ) → count_if (is_member_row id user) r.0 ≤ 1
  pub has_admin :
      (id : ℕ) (o : Organization)
      → lookup id r.1 ≡ some o
      → 1 ≤ count_if (is_admin_row id o.admin_user) r.0
  pub fresh : (id : ℕ) → r.2 ≤ id → (count_if (is_of id) r.0 ≡ 0) × (lookup id r.1 ≡ none)

abbrev pub joined : ℕ → ℕ → Role → OrganizationMembership
joined id user role = record { organization = id; user = user; role = role }

row_of_member :
    (id user : ℕ) (ms : List OrganizationMembership)
    → count_if (is_member_row id user) ms ≤ count_if (is_of id) ms
unfolding is_member_row
row_of_member id user [] = omega arith
row_of_member id user (m ∷ ms) = ground (arith, row_of_member id user ms)

count_delete_le :
    (p : OrganizationMembership → Bool) (id user : ℕ) (ms : List OrganizationMembership)
    → count_if p (delete_membership id user ms) ≤ count_if p ms
unfolding delete_membership
count_delete_le p id user [] = omega arith
count_delete_le p id user (m ∷ ms) = ground (arith, count_delete_le p id user ms)

count_admin_delete :
    (i u id user : ℕ) (ms : List OrganizationMembership)
    → (i == id && u == user) ≡ false
    → count_if (is_admin_row i u) (delete_membership id user ms) ≡ count_if (is_admin_row i u) ms
unfolding delete_membership is_member_row
count_admin_delete i u id user [] h = refl
count_admin_delete i u id user (m ∷ ms) h = ground (arith, count_admin_delete i u id user ms h)

admin_rows :
    (i u : ℕ) (ms : List OrganizationMembership)
    → count_if (is_admin_row i u) ms ≤ count_if (is_member_row i u) ms
admin_rows i u [] = omega arith
admin_rows i u (m ∷ ms) = ground (arith, admin_rows i u ms)

-- The only row of a member who has an administrator's row is that row.
only_row :
    (i u : ℕ) (ms : List OrganizationMembership) (m : OrganizationMembership)
    → find? (is_member_row i u) ms ≡ some m
    → 1 ≤ count_if (is_admin_row i u) ms
    → count_if (is_member_row i u) ms ≤ 1
    → is_admin m.role ≡ true
only_row i u [] m h a b = cc
only_row i u (x ∷ xs) m h a b = ground (arith, only_row i u xs m, admin_rows i u xs)

module _ (ms : List OrganizationMembership) (orgs : Dict Organization) (next : ℕ)
    (sound : IsSound (ms, orgs, next)) where
  same_org :
      (id : ℕ) (o p : Organization) → lookup id orgs ≡ some o → lookup id orgs ≡ some p → o ≡ p
  same_org id o p h k = some_inj (sym h ∙ k)

  -- A user who is not a member yet joins an organization that has room.
  pub joined-IsSound :
      (id user : ℕ) (role : Role) (o : Organization)
      → lookup id orgs ≡ some o
      → ltb_ℤ (pos (count_if (is_of id) ms)) o.max_members ≡ true
      → any (is_member_row id user) ms ≡ false
      → IsSound (ms ++ joined id user role ∷ [], orgs, next)
  unfolding is_member_row
  joined-IsSound id user role o found room new = record {
    fits = λ i p e.
        let s = count_if_snoc (is_of i) ms (joined id user role) in
        ground (arith, sound.fits i p e);
    unique = λ i u.
        let s = count_if_snoc (is_member_row i u) ms (joined id user role) in
        ground (arith, sound.unique i u, count_if_none (is_member_row id user) ms new);
    has_admin = λ i p e.
        let s = count_if_snoc (is_admin_row i p.admin_user) ms (joined id user role) in
        omega (arith, sound.has_admin i p e, s);
    fresh = λ i h.
        let s = count_if_snoc (is_of i) ms (joined id user role) in ground (arith, sound.fresh i h);
  }

  -- A new organization under a new key, with its administrator as the only member.
  pub founded-IsSound :
      (user : ℕ) (o : Organization)
      → o.admin_user ≡ user
      → IsSound (ms ++ joined next user admin ∷ [], insert next o orgs, next + 1)
  unfolding is_member_row is_admin
  founded-IsSound user o e = record {
    fits = λ i p h.
        let s = count_if_snoc (is_of i) ms (joined next user admin) in
        let l = lookup-insert next i o orgs in ground (arith, sound.fits i p, sound.fresh next);
    unique = λ i u.
        let s = count_if_snoc (is_member_row i u) ms (joined next user admin) in
        ground (arith, sound.unique i u, row_of_member next u ms, sound.fresh next);
    has_admin = λ i p h.
        let s = count_if_snoc (is_admin_row i p.admin_user) ms (joined next user admin) in
        let l = lookup-insert next i o orgs in
        ground (arith, sound.has_admin i p, sound.fresh next);
    fresh = λ i h.
        let s = count_if_snoc (is_of i) ms (joined next user admin) in
        let l = lookup-insert next i o orgs in ground (arith, sound.fresh i);
  }

  not_admin :
      (id user i : ℕ) (o p : Organization) (m : OrganizationMembership)
      → lookup id orgs ≡ some o
      → lookup i orgs ≡ some p
      → find? (is_member_row id user) ms ≡ some m
      → (is_admin m.role && o.admin_user == user) ≡ false
      → (i == id && p.admin_user == user) ≡ false
  not_admin id user i o p m found e row other =
      ground (arith, only_row id user ms m, sound.unique id user, sound.has_admin i p e)

  -- A member leaves who is not the administrator.
  pub left-IsSound :
      (id : ℕ) (user : ℕ) (o : Organization) (m : OrganizationMembership)
      → lookup id orgs ≡ some o
      → find? (is_member_row id user) ms ≡ some m
      → (is_admin m.role && o.admin_user == user) ≡ false
      → IsSound (delete_membership id user ms, orgs, next)
  left-IsSound id user o m found row other = record {
    fits = λ i p e. omega (arith, sound.fits i p e, count_delete_le (is_of i) id user ms);
    unique = λ i u. omega (arith, sound.unique i u, count_delete_le (is_member_row i u) id user ms);
    has_admin = λ i p e.
        rw
          (count_admin_delete i p.admin_user id user ms
            (not_admin id user i o p m found e row other))
          (sound.has_admin i p e);
    fresh = λ i h.
        let (c, d) = sound.fresh i h in (omega (arith, count_delete_le (is_of i) id user ms), d);
  }
