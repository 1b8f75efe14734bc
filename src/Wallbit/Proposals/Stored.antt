-- ===== src/Wallbit/Proposals/Stored.antt =====
-- What a tool that proposes an operation may do (wallbit/write_tools.py).
use tresqu_api.Common.{
  ℕ, suc, ◌≡◌, refl, inl, inr, Bool, true, false, none, some, [], ◌∷◌, String, Option-cases,
  Bool-cases, if◌then◌else◌, arith, ◌⊎◌,
}
use tresqu_api.Common.Int.{ℤ}
use tresqu_api.Common.Dict.{lookup, insert}
use tresqu_api.Wallbit.Models.{World, WallbitAccount, AgentDecision, Call, pending}
use tresqu_api.Wallbit.Limits.{
  Code, LimitsCheck, limits_for, evaluate_trade_limits, evaluate_move_limits, get_account,
  AccountResult, found, not_connected, kill_switch_on,
}
use tresqu_api.Wallbit.Decisions.{create_pending_decision}
use tresqu_api.Wallbit.Decisions.Counting.{write_count}
use tresqu_api.Wallbit.Executors.Queries.{Asked}
use tresqu_api.Wallbit.Proposals.{
  Proposal, refused, proposed, Asker, store, store_checked, Access, granted, denied, access,
  access_of,
}

-- The decisions, the accounts and the count of writes are as they were.
pub record Unmoved (w w' : World) : Type 0 where
  pub rows : w'.decisions ≡ w.decisions
  pub next : w'.next_decision ≡ w.next_decision
  pub clock : w'.now ≡ w.now
  pub quiet : write_count w'.log ≡ write_count w.log

pub Unmoved-refl : (w : World) → Unmoved w w
Unmoved-refl w = record { rows = refl; next = refl; clock = refl; quiet = refl }

pub Unmoved-trans : {u v w : World} → Unmoved u v → Unmoved v w → Unmoved u w
Unmoved-trans s t = record {
  rows = rw t.rows s.rows;
  next = rw t.next s.next;
  clock = rw t.clock s.clock;
  quiet = rw t.quiet s.quiet;
}

pub Asked-Unmoved : {w w' : World} → Asked w w' → Unmoved w w'
Asked-Unmoved a = rw a.same (record { rows = refl; next = refl; clock = refl; quiet = a.quiet })

pub limits_for-Unmoved : (user : ℕ) (w : World) → Unmoved w (limits_for user w).1
unfolding limits_for
limits_for-Unmoved user w = elim (Option-cases (lookup user w.limits)) [
  | inl e ↦ rw (e, limits_for) (record { rows = refl; next = refl; clock = refl; quiet = refl })
  | inr (limits, e) ↦ rw (e, limits_for) (Unmoved-refl w)
]

pub evaluate_trade_limits-Unmoved :
    (user : ℕ) (symbol : String) (amount : ℤ) (w : World)
    → Unmoved w (evaluate_trade_limits user symbol amount w).1
unfolding evaluate_trade_limits
evaluate_trade_limits-Unmoved user symbol amount w = limits_for-Unmoved user w

pub evaluate_move_limits-Unmoved :
    (user : ℕ) (amount : ℤ) (w : World) → Unmoved w (evaluate_move_limits user amount w).1
unfolding evaluate_move_limits
evaluate_move_limits-Unmoved user amount w = limits_for-Unmoved user w

-- The row of a new proposal.
abbrev pub pending_row : Asker → Call → ℕ → AgentDecision
pending_row asker call now = record {
  user = asker.user;
  channel = asker.channel;
  user_message = asker.user_message;
  tools_called = call ∷ [];
  requires_confirmation = true;
  confirmed_at = none;
  executed = false;
  wallbit_tx_uuid = none;
  error = "";
  status = pending;
  created_at = now;
}

-- A tool refuses and stores nothing, or it stores one pending decision, of a call that is `Good`.
-- Neither sends a write to the broker.
abbrev pub Proposes : (Good : Call → Type 0) → Asker → World → Proposal × World → Type 0
Proposes Good asker w (refused code, w') = Unmoved w w'
Proposes Good asker w (proposed id two_step, w') =
    (id ≡ w.next_decision)
    × (w'.next_decision ≡ suc w.next_decision)
    × (write_count w'.log ≡ write_count w.log)
    × ((call : Call) × Good call
        × (w'.decisions ≡ insert w.next_decision (pending_row asker call w.now) w.decisions))

module _ (Good : Call → Type 0) (asker : Asker) (w : World) where
  pub store-Proposes :
      (call : Call) (two_step : Bool) (u : World)
      → Good call
      → Unmoved w u
      → Proposes Good asker w (store asker call two_step u)
  unfolding store create_pending_decision
  store-Proposes call two_step u g s =
      (s.next, rw s.next refl, s.quiet, (call, g, rw (s.rows, s.next, s.clock) refl))

  pub store_checked-Proposes :
      (call : Call) (check : LimitsCheck) (u : World)
      → (check.ok ≡ true → Good call)
      → Unmoved w u
      → Proposes Good asker w (store_checked asker call (check, u))
  unfolding store_checked
  store_checked-Proposes call check u g s = elim (Bool-cases check.ok) [
    | inl t ↦ rw t (store-Proposes call check.two_step_required u (g t) s)
    | inr f ↦ rw f s
  ]

  -- An early return keeps the promise when what follows it does.
  pub guard :
      (b : Bool) (code : Code) (r : Proposal × World)
      → (b ≡ false → Proposes Good asker w r)
      → Proposes Good asker w (if b then (refused (some code), w) else r)
  guard true code r h = Unmoved-refl w
  guard false code r h = h refl

-- The account is connected and not paused.
abbrev pub IsOpen : ℕ → World → Type 0
IsOpen user w =
    (account : WallbitAccount) × (get_account user w ≡ found account)
    × (kill_switch_on account w.now ≡ false)

access_of_granted :
    (now : ℕ) (r : AccountResult) (account : WallbitAccount)
    → access_of now r ≡ granted account
    → (r ≡ found account) × (kill_switch_on account now ≡ false)
unfolding access_of
access_of_granted now (not_connected message) account h = cc
access_of_granted now (found a) account h = ground arith

pub access_granted :
    (user : ℕ) (w : World) (account : WallbitAccount)
    → access user w ≡ granted account
    → IsOpen user w
unfolding access
access_granted user w account h =
    let g = access_of_granted w.now (get_account user w) account h in (account, g.0, g.1)

pub Access-cases :
    (a : Access)
    → ((code : Code) × (a ≡ denied code)) ⊎ ((account : WallbitAccount) × (a ≡ granted account))
Access-cases (granted account) = inr (account, refl)
Access-cases (denied code) = inl (code, refl)
