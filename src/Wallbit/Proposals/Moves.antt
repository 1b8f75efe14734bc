-- ===== src/Wallbit/Proposals/Moves.antt =====
-- The proposals that move money between accounts and chests, and the pause
-- (wallbit/write_tools.py).
use tresqu_api.Common.{
  ℕ, ◌+◌, ◌*◌, ◌≤◌, ◌≡◌, refl, sym, inl, inr, Bool, true, false, not, ◌&&◌, ◌||◌, some, String,
  arith, Bool-cases, str_eq, upper, strip, contains, ltb,
}
use tresqu_api.Common.Int.{ℤ, pos, pos_part, leb_ℤ, ltb_ℤ}
use tresqu_api.Common.Dict.{lookup, lookup-modify}
use tresqu_api.Wallbit.Models.{
  World, WallbitAccount, MoveArgs, ChestArgs, Call, move_funds, deposit_chest, withdraw_chest,
}
use tresqu_api.Wallbit.Limits.{limits_for, daily_move_total, evaluate_move_limits, usd}
use tresqu_api.Wallbit.Limits.Bounds.{Fits, evaluate_move_limits_iff}
use tresqu_api.Wallbit.Bodies.{or_default}
use tresqu_api.Wallbit.Proposals.{
  Asker, is_positive, account_buckets, Access, granted, denied, access, move_by_access,
  preview_move_funds, chest_call, chest_by_access, preview_chest, longer, pause_max_hours,
  pause_bot_directly,
}
use tresqu_api.Wallbit.Proposals.Stored.{
  Unmoved-refl, evaluate_move_limits-Unmoved, Proposes, store_checked-Proposes, guard, IsOpen,
  access_granted,
}

-- The amount is positive and within the user's limits, on an account that is connected and not
-- paused.
abbrev pub IsAllowed : ℕ → World → ℤ → Type 0
IsAllowed user w amount =
    (is_positive amount ≡ true)
    × Fits (limits_for user w).0 (daily_move_total user w) amount
    × IsOpen user w

abbrev pub GoodMove : ℕ → World → Call → Type 0
GoodMove user w (move_funds args) =
    (contains account_buckets args.from_account ≡ true)
    × (contains account_buckets args.to_account ≡ true)
    × (str_eq args.from_account args.to_account ≡ false)
    × IsAllowed user w args.amount
GoodMove user w _ = ⊥

-- A deposit is of USD 10 at least.
abbrev pub GoodChest : ℕ → World → Call → Type 0
GoodChest user w (deposit_chest args) =
    IsAllowed user w args.amount_usd × (ltb_ℤ args.amount_usd (usd 10) ≡ false)
GoodChest user w (withdraw_chest args) = IsAllowed user w args.amount_usd
GoodChest user w _ = ⊥

allowed :
    (user : ℕ) (w : World) (amount : ℤ)
    → is_positive amount ≡ true
    → IsOpen user w
    → (evaluate_move_limits user amount w).0.ok ≡ true
    → IsAllowed user w amount
allowed user w amount p o k = (p, ((evaluate_move_limits_iff user amount w).0).0 k, o)

pub true_of_not : (b : Bool) → not b ≡ false → b ≡ true
true_of_not true h = refl
true_of_not false h = cc

neither : (a b : Bool) → (not a || not b) ≡ false → (a ≡ true) × (b ≡ true)
neither true true h = (refl, refl)
neither true false h = cc
neither false b h = cc

module _ (asker : Asker) (w : World) where
  move_by_access-Proposes :
      (args : MoveArgs) (a : Access)
      → (IsOpen asker.user w
          → (evaluate_move_limits asker.user args.amount w).0.ok ≡ true
          → GoodMove asker.user w (move_funds args))
      → a ≡ access asker.user w
      → Proposes (GoodMove asker.user w) asker w (move_by_access asker args w a)
  unfolding move_by_access
  move_by_access-Proposes args (denied code) g e = Unmoved-refl w
  move_by_access-Proposes args (granted account) g e =
      let check = evaluate_move_limits asker.user args.amount w in
      store_checked-Proposes (GoodMove asker.user w) asker w (move_funds args) check.0 check.1
        (g (access_granted asker.user w account (sym e)))
        (evaluate_move_limits-Unmoved asker.user args.amount w)

  -- `_preview_move_funds` refuses, or it stores one pending decision: a move between the two
  -- different accounts of a positive amount within the user's limits, on an account that is
  -- connected and not paused. It sends no write to the broker.
  pub preview_move_funds-Proposes :
      (currency from_account to_account : String) (amount : ℤ)
      → Proposes
          (GoodMove asker.user w)
          asker
          w
          (preview_move_funds asker currency from_account to_account amount w)
  unfolding preview_move_funds
  preview_move_funds-Proposes currency from_account to_account amount =
      let src = strip (upper from_account) in
      let dst = strip (upper to_account) in
      let Good = GoodMove asker.user w in
      let known = not (contains account_buckets src) || not (contains account_buckets dst) in
      guard Good asker w (str_eq (strip (upper currency)) "") _ _ (λ c.
        guard Good asker w known _ _ (λ b. guard Good asker w (str_eq src dst) _ _ (λ s.
          guard Good asker w (not (is_positive amount)) _ _ (λ p.
            move_by_access-Proposes _ (access asker.user w)
              (λ o k. (
                (neither _ _ b).0,
                (neither _ _ b).1,
                s,
                allowed asker.user w amount (true_of_not _ p) o k,
              ))
              refl))))

  chest_by_access-Proposes :
      (is_deposit : Bool) (args : ChestArgs) (a : Access)
      → (IsOpen asker.user w
          → (evaluate_move_limits asker.user args.amount_usd w).0.ok ≡ true
          → GoodChest asker.user w (chest_call is_deposit args))
      → a ≡ access asker.user w
      → Proposes (GoodChest asker.user w) asker w (chest_by_access asker is_deposit args w a)
  unfolding chest_by_access
  chest_by_access-Proposes is_deposit args (denied code) g e = Unmoved-refl w
  chest_by_access-Proposes is_deposit args (granted account) g e =
      let check = evaluate_move_limits asker.user args.amount_usd w in
      store_checked-Proposes (GoodChest asker.user w) asker w (chest_call is_deposit args) check.0
        check.1 (g (access_granted asker.user w account (sym e)))
        (evaluate_move_limits-Unmoved asker.user args.amount_usd w)

  chest_call-GoodChest :
      (is_deposit : Bool) (args : ChestArgs)
      → (is_deposit && ltb_ℤ args.amount_usd (usd 10)) ≡ false
      → IsAllowed asker.user w args.amount_usd
      → GoodChest asker.user w (chest_call is_deposit args)
  unfolding chest_call
  chest_call-GoodChest true args h a = (a, h)
  chest_call-GoodChest false args h a = a

  -- `_preview_chest` refuses, or it stores one pending decision: a deposit of USD 10 or more or a
  -- withdrawal, of a positive amount within the user's limits, on an account that is connected and
  -- not paused. It sends no write to the broker.
  pub preview_chest-Proposes :
      (action : String) (robo_advisor_id : ℕ) (amount : ℤ) (counter_account chest_category : String)
      → Proposes
          (GoodChest asker.user w)
          asker
          w
          (preview_chest asker action robo_advisor_id amount counter_account chest_category w)
  unfolding preview_chest
  preview_chest-Proposes action robo_advisor_id amount counter_account chest_category =
      let Good = GoodChest asker.user w in
      let is_deposit = str_eq (upper action) "DEPOSIT" in
      let counter = or_default (some counter_account) "DEFAULT" in
      let args : ChestArgs = record {
        robo_advisor_id = robo_advisor_id;
        amount_usd = amount;
        counter_account = some counter;
        chest_category = chest_category;
      } in
      guard Good asker w (not (is_positive amount)) _ _ (λ p.
        guard Good asker w (is_deposit && ltb_ℤ amount (usd 10)) _ _ (λ m.
          guard Good asker w (not (contains account_buckets counter)) _ _ (λ b.
            chest_by_access-Proposes is_deposit args (access asker.user w)
              (λ o k.
                chest_call-GoodChest is_deposit _ m
                  (allowed asker.user w amount (true_of_not _ p) o k))
              refl)))

longer-extends :
    (until new_until : ℕ)
    → (later : ℕ) × (longer (some until) new_until ≡ some later)
      × (until ≤ later)
      × (new_until ≤ later)
unfolding longer
longer-extends until new_until = elim (Bool-cases (ltb until new_until)) [
  | inl t ↦ (new_until, rw t refl, ground arith, omega arith)
  | inr f ↦ (until, rw f refl, omega arith, ground arith)
]

-- Pausing the bot never shortens a pause: an account that is paused until some time is, after any
-- call, paused until then or later.
pub pause_bot_directly_extends :
    (user : ℕ) (duration_hours : ℤ) (w : World) (account : WallbitAccount) (until : ℕ)
    → lookup user w.accounts ≡ some account
    → account.kill_switch_until ≡ some until
    → (row : WallbitAccount) × (later : ℕ) × (lookup user
          (pause_bot_directly user duration_hours w).1.accounts
        ≡ some row)
      × (row.kill_switch_until ≡ some later)
      × (until ≤ later)
unfolding pause_bot_directly
pause_bot_directly_extends user duration_hours w account until at was =
    let new_until = w.now + pos_part duration_hours * 3600 in
    let kept = longer (account.kill_switch_until) new_until in
    let e = longer-extends until new_until in
    elim (Bool-cases (leb_ℤ duration_hours (pos 0) || ltb_ℤ (pos pause_max_hours) duration_hours)) [
      | inl t ↦ rw (at, t, pause_bot_directly) (account, until, at, was, omega arith)
      | inr f ↦
          rw (at, f, pause_bot_directly)
            (
              record account { kill_switch_until = kept },
              e.0,
              lookup-modify user (λ row. record row { kill_switch_until = kept }) account w.accounts
                  at,
              rw was e.1,
              e.2,
            )
    ]
