-- ===== src/Users/Organizations/Invitations.antt =====
-- What becomes of an invitation, and of the plan of a user who leaves an organization.
use tresqu_api.Common.{
  ℕ, ◌≡◌, ◌⊎◌, refl, ap, ◌∙◌, Bool, true, false, some, List, [], ◌∷◌, ◌++◌, any, arith, Bool-cases,
  inl, inr,
}
use tresqu_api.Common.Dict.{lookup, lookup-insert_self}
use tresqu_api.Users.Models.{
  User, Organization, OrganizationMembership, OrganizationInvitation, InvitationStatus, pending,
  accepted, rejected, expired, member, Db,
}
use tresqu_api.Users.Organizations.Members.{joined}
use tresqu_api.Users.Organizations.Reach.{assign_business-roster}
use tresqu_api.Users.Organizations.{
  Answer, is_member_row, is_member, can_add_members, create_membership, assign_business, add_member,
  save_invitation, is_expired, accept_if, accept_pending, accept, accept_by,
}

any_snoc :
    (p : OrganizationMembership → Bool) (ms : List OrganizationMembership)
    (m : OrganizationMembership)
    → p m ≡ true
    → any p (ms ++ m ∷ []) ≡ true
any_snoc p [] m h = ground arith
any_snoc p (x ∷ xs) m h = ground (arith, any_snoc p xs m h)

module _ (key : ℕ) (invitation : OrganizationInvitation) (o : Organization) (user : User)
    (db : Db) where
  abbrev id : ℕ
  id = invitation.organization

  -- A success is a pending invitation, in time, to an organization with room, for a user who was not
  -- a member and is one afterwards. A failure adds no member and changes no user, and nothing at all
  -- where the invitation was not pending.
  abbrev pub Promises : InvitationStatus → Answer × Db → Type 0
  Promises status ((true, message), db1) =
      (status ≡ pending)
      × (is_expired invitation db ≡ false)
      × (can_add_members id o db ≡ true)
      × (is_member id user.id db ≡ false)
      × (is_member id user.id db1 ≡ true)
      × (lookup key db1.invitations ≡ some (record invitation { status = accepted }))
  Promises status ((false, message), db1) =
      (db1.memberships ≡ db.memberships)
      × (db1.users ≡ db.users)
      × ((status ≡ pending) ⊎ (db1 ≡ db))

  joins :
      is_member id user.id (assign_business user (create_membership id user.id member db)) ≡ true
  unfolding is_member create_membership is_member_row
  joins =
      ap (λ r. any (is_member_row id user.id) r.0)
        (assign_business-roster user (create_membership id user.id member db))
      ∙ any_snoc (is_member_row id user.id) db.memberships (joined id user.id member) (ground arith)

  accept_pending-Promises : Promises pending (accept_pending key invitation o user db)
  unfolding accept_pending save_invitation accept_if add_member is_member
  accept_pending-Promises = elim (Bool-cases (is_expired invitation db)) [
    | inl t ↦ rw (t, accept_pending) (refl, refl, inl refl)
    | inr f ↦ elim (Bool-cases (can_add_members id o db)) [
      | inr g ↦ rw (f, g, accept_pending) (refl, refl, inl refl)
      | inl t ↦ elim (Bool-cases (is_member id user.id db)) [
        | inl m ↦ rw (f, t, accept_pending, add_member, m) (refl, refl, inl refl)
        | inr n ↦
            rw (f, t, accept_pending, add_member, n)
              (
                refl,
                f,
                t,
                n,
                joins,
                lookup-insert_self key (record invitation { status = accepted })
                    (assign_business user (create_membership id user.id member db)).invitations,
              )
      ]
    ]
  ]

  accept_by-Promises :
      (status : InvitationStatus) → Promises status (accept_by status key invitation o user db)
  unfolding accept_by
  accept_by-Promises pending = accept_pending-Promises
  accept_by-Promises accepted = (refl, refl, inr refl)
  accept_by-Promises rejected = (refl, refl, inr refl)
  accept_by-Promises expired = (refl, refl, inr refl)

  -- The answer to an acceptance says what happened: a success is a pending invitation, in time, to an
  -- organization with room, for a user who was not a member and is one afterwards, and it is marked
  -- as accepted; a failure adds no member and changes no user, and an invitation that was not pending
  -- changes nothing at all.
  pub accept-Promises : Promises invitation.status (accept key invitation o user db)
  unfolding accept
  accept-Promises = accept_by-Promises invitation.status
