-- ===== src/Wallbit/Decisions/Lifecycle.antt =====
-- What a claim takes and what it leaves (wallbit/agent_safety.py, `claim_pending_decision`).
use tresqu_api.Common.{ℕ, ◌+◌, ◌≡◌, refl, true, none, some, arith, if◌then◌else◌, ◌==◌}
use tresqu_api.Common.Dict.{lookup, insert, tally-insert, lookup-insert}
use tresqu_api.Wallbit.Models.{World, AgentDecision, executing}
use tresqu_api.Wallbit.Decisions.{
  claimable, get_pending_decision, claim_pending_decision, is_pending,
}
use tresqu_api.Wallbit.Decisions.Counting.{IsFresh, IsSpent, claimable_count, update_row_found}

-- A decision that was confirmed or resolved is found by nobody.
pub get_pending-IsSpent :
    (user id : ℕ) (w : World) → IsSpent id w → get_pending_decision user id w ≡ none
unfolding get_pending_decision claimable
get_pending-IsSpent user id w (d, e, c) = ground arith

pub claim-IsSpent :
    (user id : ℕ) (w : World) → IsSpent id w → claim_pending_decision user id w ≡ none
unfolding claim_pending_decision
claim-IsSpent user id w h = rw (get_pending-IsSpent user id w h, claim_pending_decision)

-- What is found is the row, of that user, and claimable.
pub get_pending_found :
    (user id : ℕ) (w : World) (d : AgentDecision)
    → get_pending_decision user id w ≡ some d
    → (lookup id w.decisions ≡ some d) × (d.user ≡ user) × (claimable d ≡ true)
unfolding get_pending_decision
get_pending_found user id w d h = ground arith

-- The row that a claim writes, which is also the handler's copy.
abbrev pub claimed_row : AgentDecision → World → AgentDecision
claimed_row d w = record d { status = executing; confirmed_at = some w.now }

pub claim_found :
    (user id : ℕ) (w : World) (d : AgentDecision)
    → get_pending_decision user id w ≡ some d
    → claim_pending_decision user id w
      ≡ some (claimed_row d w, record w { decisions = insert id (claimed_row d w) w.decisions })
unfolding claim_pending_decision
claim_found user id w d h =
    rw (h, claim_pending_decision)
      (rw
        (update_row_found id (λ row. record row { status = executing; confirmed_at = some w.now }) w
          (get_pending_found user id w d h).0)
        refl)

-- After a claim its decision is spent, one decision less is claimable, and what was spent stays so.
pub record Claimed (id : ℕ) (w w' : World) : Type 0 where
  pub mine : IsSpent id w'
  pub taken : claimable_count w' + 1 ≡ claimable_count w
  pub log : w'.log ≡ w.log
  pub spent : (j : ℕ) → IsSpent j w → IsSpent j w'
  pub fresh : IsFresh w → IsFresh w'

pub claim-Claimed :
    (user id : ℕ) (w : World) (d : AgentDecision)
    → get_pending_decision user id w ≡ some d
    → Claimed id w (record w { decisions = insert id (claimed_row d w) w.decisions })
unfolding claimable is_pending
claim-Claimed user id w d h =
    let row = get_pending_found user id w d h in
    record {
      mine = (
        claimed_row d w,
        ground (arith, lookup-insert id id (claimed_row d w) w.decisions),
        refl,
      );
      taken = ground (arith, tally-insert claimable id (claimed_row d w) d w.decisions row.0);
      log = refl;
      spent = λ j s. (
        if id == j then claimed_row d w else s.0,
        ground (arith, lookup-insert id j (claimed_row d w) w.decisions),
        ground arith,
      );
      fresh =
          λ f j b. ground (arith, lookup-insert id j (claimed_row d w) w.decisions, f j b, row.0);
    }
