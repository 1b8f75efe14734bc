-- ===== src/Users/Tests/Organizations.antt =====
-- Runs of the operations on organizations, and their theorems at such inputs.
use tresqu_api.Common.{◌≡◌, refl, true, [], ◌∷◌, arith}
use tresqu_api.Common.Dict.{lookup}
use tresqu_api.Common.Int.{pos}
use tresqu_api.Common.Dates.{date}
use tresqu_api.Users.Models.{
  User, Organization, OrganizationInvitation, Db, member, pending, save_user,
}
use tresqu_api.Users.Plans.{get_plan, same_plan, default_plan}
use tresqu_api.Users.Organizations.{
  can_add_members, current_member_count, create_membership, assign_business, is_member_row,
  add_member, remove_member, create_organization, accept, is_member,
}
use tresqu_api.Users.Organizations.Reach.{SoundDb, none_yet, then_one, creates, Steps-SoundDb}
use tresqu_api.Users.Organizations.Invitations.{Promises, accept-Promises}
use tresqu_api.Users.Organizations.Leaving.{LosesPlan, remove_member-LosesPlan}
use tresqu_api.Users.Tests.{ana, at, moment}

abbrev blas : User
blas = record ana { id = 2 }

abbrev empty : Db
empty = at (date 2026 3 4)

empty-SoundDb : SoundDb empty
unfolding lookup
empty-SoundDb = record {
  fits = λ id o h. omega arith;
  unique = λ id user. omega arith;
  has_admin = λ id o h. cc;
  fresh = λ id h. (refl, refl);
}

-- `ana` founds an organization of two with `blas`.
abbrev two_members : Db
two_members = (create_organization ana (blas ∷ []) (pos 2) empty).1

Steps-SoundDb_example : SoundDb two_members
Steps-SoundDb_example =
    Steps-SoundDb empty two_members (then_one none_yet (creates ana (blas ∷ []) (pos 2)))
      empty-SoundDb

abbrev office : Organization
office = record {
  admin_user = 1;
  max_members = pos 2;
  subscription_end_date = moment (date 2027 3 4);
}

abbrev invitation : OrganizationInvitation
invitation = record { organization = 1; status = pending; expires_at = moment (date 2026 3 5) }

accept-Promises_example :
    Promises 7 invitation office blas empty pending (accept 7 invitation office blas empty)
accept-Promises_example = accept-Promises 7 invitation office blas empty

-- `blas` is a member of the organizations 1 and 2.
abbrev both : Db
both = (add_member 2 office blas member (add_member 1 office blas member empty).1).1

in_both : is_member 2 2 both ≡ true
unfolding is_member add_member can_add_members current_member_count create_membership
    assign_business save_user get_plan same_plan is_member_row default_plan
in_both = refl

remove_member-LosesPlan_example : LosesPlan 2 2 (remove_member 1 office blas both)
remove_member-LosesPlan_example = remove_member-LosesPlan 1 2 office blas both (omega arith) in_both
