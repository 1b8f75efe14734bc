-- ===== src/Savings/Ledger.antt =====
-- The amount of a goal is the sum of its deposits and withdrawals, and its status says whether the
-- target is reached.
use tresqu_api.Common.{
  ℕ, ◌≡◌, refl, sym, ◌∙◌, ap, subst, Bool, true, false, not, ◌&&◌, some, some_inj, List, [], ◌∷◌,
  arith, Bool-cases, inl, inr,
}
use tresqu_api.Common.Int.{ℤ, pos, ◌+ℤ◌, ◌-ℤ◌, ◌≤ℤ◌, leb_ℤ, ltb_ℤ, eq_of_parts, +ℤ_parts, -ℤ_parts}
use tresqu_api.Savings.{
  withdrawal, Status, TransactionType, SavingsDeposit, SavingsGoal, is_completed, is_active,
  is_completed_status, complete, reopen, add_deposit, withdraw,
}

abbrev pub total : List SavingsDeposit → ℤ
total [] = pos 0
total (d ∷ ds) = total ds +ℤ d.amount

-- An active goal is short of its target, and a completed one is not.
abbrev pub Fits : Status → Bool → Type 0
Fits status reached =
    (is_active status ≡ true → reached ≡ false)
    × (is_completed_status status ≡ true → reached ≡ true)

pub record IsSound (goal : SavingsGoal) : Type 0 where
  pub balanced : goal.current_amount ≡ total goal.deposits
  pub not_negative : pos 0 ≤ℤ goal.current_amount
  pub status_fits : Fits goal.status (is_completed goal)

complete-Fits :
    (now : ℕ) (goal : SavingsGoal)
    → (is_completed_status goal.status ≡ true → is_completed goal ≡ true)
    → Fits (complete now goal).status (is_completed (complete now goal))
unfolding complete is_completed is_active is_completed_status
complete-Fits now goal f = elim (Bool-cases (leb_ℤ goal.target_amount goal.current_amount)) [
  | inl t ↦ elim (Bool-cases (is_active goal.status)) [
    | inl a ↦ rw (t, a, complete, is_completed) ((λ h. cc), (λ h. t))
    | inr i ↦
        rw (t, i, complete, is_completed)
          ((λ h. let bad : false ≡ true = sym i ∙ h in cc), (λ h. t))
  ]
  | inr n ↦ rw (n, complete, is_completed) ((λ h. n), f)
]

reopen-Fits :
    (goal : SavingsGoal)
    → (is_active goal.status ≡ true → is_completed goal ≡ false)
    → Fits (reopen goal).status (is_completed (reopen goal))
unfolding reopen is_completed is_active is_completed_status
reopen-Fits goal f = elim (Bool-cases (leb_ℤ goal.target_amount goal.current_amount)) [
  | inl t ↦ rw (t, reopen, is_completed) (f, (λ h. t))
  | inr n ↦ elim (Bool-cases (is_completed_status goal.status)) [
    | inl c ↦ rw (n, c, reopen, is_completed) ((λ h. n), (λ h. cc))
    | inr c ↦
        rw (n, c, reopen, is_completed) ((λ h. n), (λ h. let bad : false ≡ true = sym c ∙ h in cc))
  ]
]

-- Neither step touches the amount or the deposits.
abbrev books : SavingsGoal → ℤ × List SavingsDeposit
books goal = (goal.current_amount, goal.deposits)

complete-books : (now : ℕ) (goal : SavingsGoal) → books (complete now goal) ≡ books goal
unfolding complete
complete-books now goal = elim (Bool-cases (is_completed goal && is_active goal.status)) [
  | inl t ↦ rw (t, complete) refl
  | inr f ↦ rw (f, complete) refl
]

reopen-books : (goal : SavingsGoal) → books (reopen goal) ≡ books goal
unfolding reopen
reopen-books goal = elim (Bool-cases (not (is_completed goal) && is_completed_status goal.status)) [
  | inl t ↦ rw (t, reopen) refl
  | inr f ↦ rw (f, reopen) refl
]

abbrev IsBooked : ℤ × List SavingsDeposit → Type 0
IsBooked (amount, deposits) = (amount ≡ total deposits) × (pos 0 ≤ℤ amount)

raised : (t a b : ℤ) → pos 0 ≤ℤ b → leb_ℤ t a ≡ true → leb_ℤ t (a +ℤ b) ≡ true
raised t a b h e = ground (arith, +ℤ_parts a b)

lowered : (t a b : ℤ) → pos 0 ≤ℤ b → leb_ℤ t a ≡ false → leb_ℤ t (a -ℤ b) ≡ false
lowered t a b h e = ground (arith, -ℤ_parts a b)

minus_amount : (a b : ℤ) → a -ℤ b ≡ a +ℤ (pos 0 -ℤ b)
minus_amount a b =
    eq_of_parts (a -ℤ b) (a +ℤ (pos 0 -ℤ b))
      (omega (arith, -ℤ_parts a b, +ℤ_parts a (pos 0 -ℤ b), -ℤ_parts (pos 0) b))

covered : (a b : ℤ) → ltb_ℤ a b ≡ false → pos 0 ≤ℤ (a -ℤ b)
covered a b h = ground (arith, -ℤ_parts a b)

-- A deposit that is not negative.
pub add_deposit-IsSound :
    (now : ℕ) (amount : ℤ) (kind : TransactionType) (goal : SavingsGoal)
    → pos 0 ≤ℤ amount
    → IsSound goal
    → IsSound (add_deposit now amount kind goal)
unfolding add_deposit is_completed
add_deposit-IsSound now amount kind goal h s =
    let d : SavingsDeposit = record { amount = amount; transaction_type = kind } in
    let after : SavingsGoal = record goal {
      current_amount = goal.current_amount +ℤ amount;
      deposits = d ∷ goal.deposits;
    } in
    let (b, n) =
      subst (λ r. IsBooked r) (sym (complete-books now after))
        (
          ap (λ a. a +ℤ amount) s.balanced,
          omega (arith, +ℤ_parts goal.current_amount amount, h, s.not_negative),
        ) in
    record {
      balanced = b;
      not_negative = n;
      status_fits =
          complete-Fits now after
            (λ c. raised goal.target_amount goal.current_amount amount h (s.status_fits.1 c));
    }

abbrev taken : ℤ → SavingsGoal → SavingsGoal
taken amount goal = record goal {
  current_amount = goal.current_amount -ℤ amount;
  deposits = record { amount = pos 0 -ℤ amount; transaction_type = withdrawal } ∷ goal.deposits;
}

taken-IsSound :
    (amount : ℤ) (goal : SavingsGoal)
    → pos 0 ≤ℤ amount
    → ltb_ℤ goal.current_amount amount ≡ false
    → IsSound goal
    → IsSound (reopen (taken amount goal))
unfolding is_completed
taken-IsSound amount goal h room s =
    let balance =
      minus_amount goal.current_amount amount ∙ ap (λ a. a +ℤ (pos 0 -ℤ amount)) s.balanced in
    let (b, n) =
      subst (λ r. IsBooked r) (sym (reopen-books (taken amount goal)))
        (balance, covered goal.current_amount amount room) in
    record {
      balanced = b;
      not_negative = n;
      status_fits =
          reopen-Fits (taken amount goal)
            (λ c. lowered goal.target_amount goal.current_amount amount h (s.status_fits.0 c));
    }

pub withdraw-IsSound :
    (amount : ℤ) (goal after : SavingsGoal)
    → pos 0 ≤ℤ amount
    → withdraw amount goal ≡ some after
    → IsSound goal
    → IsSound after
unfolding withdraw
withdraw-IsSound amount goal after h e s = elim (Bool-cases (ltb_ℤ goal.current_amount amount)) [
  | inl t ↦ let bad = rw (t, withdraw) at e in cc
  | inr f ↦
      subst (λ g. IsSound g) (some_inj (rw (f, withdraw) at e)) (taken-IsSound amount goal h f s)
]
