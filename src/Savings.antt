-- ===== src/Savings.antt =====
-- Savings goals: savings/models.py, SavingsGoal and SavingsDeposit, and the deposit and withdraw
-- endpoints of savings/views.py. Amounts are in cents. The deposits of a goal stand newest first.
pub mod Ledger
pub mod Reach
mod Tests
use tresqu_api.Common.{
  ℕ, Bool, true, false, not, ◌&&◌, ◌||◌, Option, none, some, List, [], ◌∷◌, ◌==◌, if◌then◌else◌,
}
use tresqu_api.Common.Int.{ℤ, pos, ◌+ℤ◌, ◌-ℤ◌, leb_ℤ, ltb_ℤ, pos_part, neg_part}

-- SavingsGoal.STATUS_CHOICES
pub data Status : Type 0 where
  active completed paused cancelled : Status

-- SavingsDeposit.TRANSACTION_TYPES
pub data TransactionType : Type 0 where
  manual automatic transfer withdrawal interest bonus : TransactionType

pub record SavingsDeposit : Type 0 where
  pub amount : ℤ
  pub transaction_type : TransactionType

pub record SavingsGoal : Type 0 where
  pub target_amount : ℤ
  pub current_amount : ℤ
  pub status : Status
  pub completed_at : Option ℕ
  pub deposits : List SavingsDeposit

pub is_completed : SavingsGoal → Bool
is_completed goal = leb_ℤ goal.target_amount goal.current_amount

pub remaining_amount : SavingsGoal → ℤ
remaining_amount goal =
    let remaining = goal.target_amount -ℤ goal.current_amount in
    if ltb_ℤ remaining (pos 0) then pos 0 else remaining

pub is_active : Status → Bool
is_active active = true
is_active _ = false

pub is_completed_status : Status → Bool
is_completed_status completed = true
is_completed_status _ = false

-- `if self.is_completed and self.status == 'active'`
pub complete : ℕ → SavingsGoal → SavingsGoal
unfolding is_active
complete now goal =
    if is_completed goal && is_active goal.status
    then record goal { status = completed; completed_at = some now }
    else goal

pub add_deposit : ℕ → ℤ → TransactionType → SavingsGoal → SavingsGoal
unfolding complete
add_deposit now amount kind goal =
    let deposit : SavingsDeposit = record { amount = amount; transaction_type = kind } in
    complete now (record goal {
      current_amount = goal.current_amount +ℤ amount;
      deposits = deposit ∷ goal.deposits;
    })

-- `if not self.is_completed and self.status == 'completed'`
pub reopen : SavingsGoal → SavingsGoal
unfolding is_completed_status
reopen goal =
    if not (is_completed goal) && is_completed_status goal.status
    then record goal { status = active; completed_at = none }
    else goal

-- `ValueError` is `none`.
unfoldable pub withdraw : ℤ → SavingsGoal → Option SavingsGoal
unfolding reopen
withdraw amount goal =
    let deposit : SavingsDeposit = record {
      amount = pos 0 -ℤ amount;
      transaction_type = withdrawal;
    } in
    if ltb_ℤ goal.current_amount amount
    then none
    else some (
        reopen (record goal {
          current_amount = goal.current_amount -ℤ amount;
          deposits = deposit ∷ goal.deposits;
        }))

-- What an endpoint answers: the goal afterwards, or a refusal that leaves it as it was.
pub data GoalResponse : Type 0 where
  ok : SavingsGoal → GoalResponse
  bad_request : GoalResponse

pub is_zero : ℤ → Bool
is_zero a = pos_part a == 0 && neg_part a == 0

pub is_withdrawal : TransactionType → Bool
is_withdrawal withdrawal = true
is_withdrawal _ = false

-- `validate` of the serializer of a deposit; `available` is the amount of the goal that the request
-- names in its body.
pub exceeds : TransactionType → ℤ → ℤ → Bool
unfolding is_withdrawal
exceeds kind amount available = is_withdrawal kind && ltb_ℤ (pos 0) amount && ltb_ℤ available amount

-- The view `add_deposit`, with the serializer's checks.
unfoldable pub post_deposit : ℕ → ℤ → TransactionType → ℤ → SavingsGoal → GoalResponse
unfolding is_zero exceeds
post_deposit now amount kind available goal =
    if is_zero amount || exceeds kind amount available
    then bad_request
    else ok (add_deposit now amount kind goal)

-- The view `withdraw`.
pub post_withdraw : ℤ → SavingsGoal → GoalResponse
post_withdraw amount goal =
    if not (ltb_ℤ (pos 0) amount)
    then bad_request
    else elim (withdraw amount goal) [ none ↦ bad_request | some after ↦ ok after ]
