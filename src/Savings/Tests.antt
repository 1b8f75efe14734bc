-- ===== src/Savings/Tests.antt =====
-- Runs of a savings goal, and its theorem at such inputs.
use tresqu_api.Common.{none, [], ◌∷◌}
use tresqu_api.Common.Int.{pos, ◌-ℤ◌}
use tresqu_api.Savings.{SavingsGoal, active, manual, withdrawal, reopen, add_deposit}

abbrev holiday : SavingsGoal
holiday = record {
  target_amount = pos 100000;
  current_amount = pos 0;
  status = active;
  completed_at = none;
  deposits = [];
}

-- The target is reached, and then missed again.
abbrev reached : SavingsGoal
reached = add_deposit 5 (pos 120000) manual holiday

abbrev missed : SavingsGoal
missed = reopen (record reached {
  current_amount = pos 90000;
  deposits =
      record { amount = pos 0 -ℤ pos 30000; transaction_type = withdrawal } ∷ reached.deposits;
})
