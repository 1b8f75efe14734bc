-- ===== src/Savings/Reach.antt =====
-- The goals that requests reach.
use tresqu_api.Common.{ℕ, ◌≡◌}
use tresqu_api.Common.Int.{ℤ, pos, ◌≤ℤ◌}
use tresqu_api.Savings.{
  exceeds, exceeds, TransactionType, SavingsGoal, GoalResponse, ok, bad_request, post_deposit,
  post_withdraw,
}

-- The goals that requests to the two endpoints lead to, where no deposit is negative.
pub data Reaches (goal : SavingsGoal) : SavingsGoal → Type 0 where
  start : Reaches goal goal
  deposit :
      {before after : SavingsGoal} (now : ℕ) (amount available : ℤ) (kind : TransactionType)
      → Reaches goal before
      → pos 0 ≤ℤ amount
      → post_deposit now amount kind available before ≡ ok after
      → Reaches goal after
  withdraws :
      {before after : SavingsGoal} (amount : ℤ)
      → Reaches goal before
      → post_withdraw amount before ≡ ok after
      → Reaches goal after

answered : SavingsGoal → GoalResponse → SavingsGoal
answered other (ok goal) = goal
answered other bad_request = other
