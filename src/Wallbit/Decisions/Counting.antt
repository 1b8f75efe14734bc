-- ===== src/Wallbit/Decisions/Counting.antt =====
-- How many decisions can still be claimed, how many writes went out, and what an operation may do
-- to both.
use tresqu_api.Common.{
  ℕ, ◌+◌, ◌≤◌, ◌≡◌, refl, inl, inr, Bool, true, false, not, Option, none, some, String, arith,
  is_some, Option-cases, count_if, if◌then◌else◌, ◌==◌,
}
use tresqu_api.Common.Dict.{lookup, insert, modify, tally, tally-insert, lookup-insert}
use tresqu_api.Wallbit.Messages.{Event, sent, Log}
use tresqu_api.Wallbit.Client.{idempotent}
use tresqu_api.Wallbit.Models.{
  World, AgentDecision, DecisionStatus, failed, cancelled, uncertain_status,
}
use tresqu_api.Wallbit.Decisions.{
  claimable, update_row, stamp_row, mark_executed, mark_failed, mark_cancelled, mark_uncertain,
  closed_row, is_pending,
}

-- A write is a request with a method that is not idempotent.
abbrev pub is_write : Event → Bool
is_write (sent request) = not (idempotent request.method)
is_write _ = false

abbrev pub write_count : Log → ℕ
write_count = count_if is_write

-- How many decisions a confirmation could still take.
abbrev pub claimable_count : World → ℕ
claimable_count w = tally claimable w.decisions

-- The row was confirmed or resolved once.
abbrev pub IsSpent : ℕ → World → Type 0
IsSpent id w =
    (d : AgentDecision) × (lookup id w.decisions ≡ some d) × (is_some d.confirmed_at ≡ true)

-- The ids that the table has not given out hold no row.
abbrev pub IsFresh : World → Type 0
IsFresh w = (id : ℕ) → w.next_decision ≤ id → lookup id w.decisions ≡ none

-- What an operation that sends at most `n` writes may do: it makes no decision claimable again.
pub record Steps (n : ℕ) (w w' : World) : Type 0 where
  pub writes : write_count w'.log ≤ write_count w.log + n
  pub claims : claimable_count w' ≤ claimable_count w
  pub spent : (id : ℕ) → IsSpent id w → IsSpent id w'
  pub fresh : IsFresh w → IsFresh w'

pub Steps-refl : (w : World) → Steps 0 w w
Steps-refl w = record {
  writes = omega arith;
  claims = omega arith;
  spent = λ id h. h;
  fresh = λ f. f;
}

pub Steps-trans : (n m : ℕ) {u v w : World} → Steps n u v → Steps m v w → Steps (n + m) u w
Steps-trans n m s t = record {
  writes = omega (arith, s.writes, t.writes);
  claims = omega (arith, s.claims, t.claims);
  spent = λ id h. t.spent id (s.spent id h);
  fresh = λ f. t.fresh (s.fresh f);
}

pub Steps-weaken : {w w' : World} → Steps 0 w w' → Steps 1 w w'
Steps-weaken s = record {
  writes = omega (arith, s.writes);
  claims = s.claims;
  spent = s.spent;
  fresh = s.fresh;
}

-- An update of anything but the log and the decisions.
pub Steps-same :
    (w w' : World)
    → w'.log ≡ w.log
    → w'.decisions ≡ w.decisions
    → w'.next_decision ≡ w.next_decision
    → Steps 0 w w'
Steps-same w w' l d n = record {
  writes = rw l (omega arith);
  claims = rw d (omega arith);
  spent = λ id h. rw d h;
  fresh = λ f id b. rw d (f id (omega (arith, n, b)));
}

module _ (id : ℕ) (f : AgentDecision → AgentDecision) (w : World) where
  pub update_row_missing : lookup id w.decisions ≡ none → update_row id f w ≡ w
  unfolding update_row
  update_row_missing e = rw (e, modify, update_row)

  pub update_row_found :
      {row : AgentDecision}
      → lookup id w.decisions ≡ some row
      → update_row id f w ≡ record w { decisions = insert id (f row) w.decisions }
  unfolding update_row
  update_row_found e = rw (e, modify, update_row)

-- A save that leaves its row closed, and confirmed if it was.
pub record Closes (f : AgentDecision → AgentDecision) : Type 0 where
  pub shut : (row : AgentDecision) → claimable (f row) ≡ false
  pub kept :
      (row : AgentDecision) → is_some row.confirmed_at ≡ true → is_some (f row).confirmed_at ≡ true

module _ (id : ℕ) (f : AgentDecision → AgentDecision) (c : Closes f) (w : World) where
  insert-IsSpent :
      (row d : AgentDecision) (j : ℕ)
      → lookup id w.decisions ≡ some row
      → lookup j w.decisions ≡ some d
      → is_some d.confirmed_at ≡ true
      → IsSpent j (record w { decisions = insert id (f row) w.decisions })
  insert-IsSpent row d j at e h = (
    if id == j then f row else d,
    ground (arith, lookup-insert id j (f row) w.decisions),
    ground (arith, c.kept row),
  )

  insert-kept_fresh :
      (row : AgentDecision)
      → lookup id w.decisions ≡ some row
      → IsFresh w
      → (j : ℕ) → w.next_decision ≤ j
      → lookup j (insert id (f row) w.decisions) ≡ none
  insert-kept_fresh row at h j b = ground (arith, lookup-insert id j (f row) w.decisions, h j b)

  pub update_row-Steps : Steps 0 w (update_row id f w)
  update_row-Steps = elim (Option-cases (lookup id w.decisions)) [
    | inl missing ↦ rw (update_row_missing id f w missing) (Steps-refl w)
    | inr (row, e) ↦ rw (update_row_found id f w e) (record {
      writes = omega arith;
      claims = ground (arith, tally-insert claimable id (f row) row w.decisions e, c.shut row);
      spent = λ j h. insert-IsSpent row h.0 j e h.1 h.2;
      fresh = λ h j b. insert-kept_fresh row e h j b;
    })
  ]

stamp_row-kept :
    (now : ℕ) (copy row : Option ℕ) → is_some row ≡ true → is_some (stamp_row now copy row) ≡ true
unfolding stamp_row
stamp_row-kept now none row h = refl
stamp_row-kept now (some at) row h = h

module _ (id : ℕ) (d : AgentDecision) (w : World) where
  pub mark_executed-Steps : (uuid : String) → Steps 0 w (mark_executed id d uuid w)
  unfolding mark_executed claimable
  mark_executed-Steps uuid =
      update_row-Steps id _
        (record {
          shut = λ row. ground arith;
          kept = λ row. stamp_row-kept w.now d.confirmed_at row.confirmed_at;
        })
        w

  closed_row-Closes :
      (status : DecisionStatus) (error : String)
      → is_pending status ≡ false
      → Closes (closed_row w.now d status error)
  unfolding closed_row claimable
  closed_row-Closes status error h = record {
    shut = λ row. ground arith;
    kept = λ row. stamp_row-kept w.now d.confirmed_at row.confirmed_at;
  }

  pub mark_failed-Steps : (error : String) → Steps 0 w (mark_failed id d error w)
  unfolding mark_failed is_pending
  mark_failed-Steps error = update_row-Steps id _ (closed_row-Closes failed _ refl) w

  pub mark_uncertain-Steps : (error : String) → Steps 0 w (mark_uncertain id d error w)
  unfolding mark_uncertain is_pending
  mark_uncertain-Steps error = update_row-Steps id _ (closed_row-Closes uncertain_status _ refl) w

  pub mark_cancelled-Steps : Steps 0 w (mark_cancelled id d w)
  unfolding mark_cancelled is_pending
  mark_cancelled-Steps = update_row-Steps id _ (closed_row-Closes cancelled _ refl) w
