-- ===== src/Balance/Tests.antt =====
-- Balances on small inputs, and their theorems at such inputs.
use tresqu_api.Common.{
  ℕ, ◌+◌, ◌-◌, ◌*◌, ◌/◌, ◌≡◌, refl, true, false, not, ◌&&◌, none, some, Option, List, [], ◌∷◌,
  String, arith, upper,
}
use tresqu_api.Common.Int.{pos, ◌+ℤ◌, ◌-ℤ◌}
use tresqu_api.Balance.{
  Transaction, Zone, get_anchor, in_period, is_anchor, is_initial, is_later, key_before,
  latest_initial_balances, put_anchor, effective_day, after_anchor,
}
use tresqu_api.Balance.Anchors.{IsLatest, latest_initial_balances-IsLatest}
use tresqu_api.Balance.Compute.{
  BalancePeriod, balance_from, carried_anchors, counts_in, currency_balance, first_of, is_inverted,
  keep, sum,
}
use tresqu_api.Balance.Criterion.{IsZone}
use tresqu_api.Balance.Totals.{DistinctIds, is_counted}
use tresqu_api.Balance.Declared.{currency_balance-declared}

-- UTC, with days of 100 instants and months of 30 days.
abbrev utc : Zone
utc = record {
  local_day = λ t. t / 100;
  day_start = λ d. d * 100;
  day_end = λ d. d * 100 + 99;
  day_of_month = λ d. d - d / 30 * 30 + 1;
}

utc-IsZone : IsZone utc
utc-IsZone = record {
  starts = λ t day. (λ h. omega arith, λ h. omega arith);
  ends = λ t day. (λ h. omega arith, λ h. omega arith);
}

abbrev movement : ℕ → ℕ → String → Option ℕ → ℕ → Transaction
movement id amount note day_at created_at = record {
  id = id;
  user = 1;
  amount = pos amount;
  currency = "COP";
  category_str = "";
  note = note;
  timestamp = created_at;
  day_at = day_at;
  created_at = created_at;
}

-- 1000 was declared on day 65, and 50 came in before and 70 after it.
abbrev declared : Transaction
declared = movement 2 1000 "Saldo inicial" (some 65) 6550

abbrev incomes : List Transaction
incomes = movement 1 50 "" (some 65) 6540 ∷ declared ∷ movement 3 70 "" none 6610 ∷ []

-- 30 was spent before and 200 after it.
abbrev expenses : List Transaction
expenses = movement 1 30 "" (some 64) 6400 ∷ movement 2 200 "" (some 65) 6560 ∷ []

abbrev month : BalancePeriod
month = record { start = some 60; end = some 69; is_default_month = true }

chosen :
    get_anchor "COP" (latest_initial_balances utc 1 (some 60) (some 69) incomes) ≡ some declared
unfolding latest_initial_balances get_anchor is_anchor is_initial is_later key_before upper
    put_anchor effective_day
chosen = refl

latest_initial_balances-IsLatest_example :
    IsLatest utc 1
      (some 60)
      (some 69)
      "COP"
      incomes
      (get_anchor "COP" (latest_initial_balances utc 1 (some 60) (some 69) incomes))
latest_initial_balances-IsLatest_example =
    latest_initial_balances-IsLatest utc 1 (some 60) (some 69) "COP" incomes

-- Of the month, the declared 1000 with the later 70 less the later 200 are left.
left_over :
    (currency_balance utc 1 month expenses incomes
      (latest_initial_balances utc 1 (some 60) (some 69) incomes)
      []
      "COP").balance
    ≡ pos 870
unfolding currency_balance balance_from latest_initial_balances get_anchor is_anchor is_initial
    is_later key_before upper put_anchor effective_day after_anchor in_period ◌+ℤ◌ ◌-ℤ◌ counts_in
left_over = refl

upright : is_inverted utc 1 month ≡ false
unfolding is_inverted
upright = refl

nothing_carried :
    first_of (get_anchor "COP" (latest_initial_balances utc 1 (some 60) (some 69) incomes)) (
      get_anchor "COP" (
        carried_anchors utc 1 month incomes
          (latest_initial_balances utc 1 (some 60) (some 69) incomes)))
    ≡ some declared
nothing_carried = rw chosen refl

distinct_ids : DistinctIds incomes
distinct_ids = omega arith

currency_balance-declared_example :
    (currency_balance utc 1 month expenses incomes
      (latest_initial_balances utc 1 (some 60) (some 69) incomes)
      (carried_anchors utc 1 month incomes
        (latest_initial_balances utc 1 (some 60) (some 69) incomes))
      "COP").balance
    ≡ pos 1000
      +ℤ (sum (
          keep
            (λ m. is_counted utc utc-IsZone 1 month "COP" declared m && not (is_initial m))
            incomes)).total
      -ℤ (sum (keep (is_counted utc utc-IsZone 1 month "COP" declared) expenses)).total
currency_balance-declared_example =
    currency_balance-declared utc utc-IsZone 1 month "COP" expenses incomes distinct_ids declared
      upright nothing_carried
