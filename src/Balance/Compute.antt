-- ===== src/Balance/Compute.antt =====
-- expenses/balance.py, `compute_balance`. `none` is its `ValueError`.
use Prim.Native.Nat.{Ordering}
use Prim.Native.String.{compare as compare_text}
use tresqu_api.Common.{
  ℕ, ◌+◌, ◌-◌, Bool, true, false, not, ◌&&◌, ◌||◌, Option, none, some, List, [], ◌∷◌, ◌++◌, String,
  ltb, ◌==◌, str_eq, if◌then◌else◌, contains, map, is_some,
}
use tresqu_api.Common.Int.{ℤ, pos, ◌+ℤ◌, ◌-ℤ◌}
use tresqu_api.Balance.{
  Transaction, Zone, after_anchor, carry_over_days, effective_day, get_anchor, in_period,
  is_initial, latest_initial_balances,
}

pub record BalancePeriod : Type 0 where
  pub start : Option ℕ
  pub end : Option ℕ
  pub is_default_month : Bool

pub record CurrencyBalance : Type 0 where
  pub balance_currency : String
  pub since_initial_balance : Option ℕ
  pub initial_balance : Option ℤ
  pub carried_initial_balance : Bool
  pub incomes_total : ℤ
  pub incomes_count : ℕ
  pub expenses_total : ℤ
  pub expenses_count : ℕ
  pub balance : ℤ

-- `_sum`
pub record Sum : Type 0 where
  pub total : ℤ
  pub count : ℕ

unfoldable pub sum : List Transaction → Sum
sum [] = record { total = pos 0; count = 0 }
sum (m ∷ ms) =
    let rest = sum ms in record { total = m.amount +ℤ rest.total; count = rest.count + 1 }

unfoldable pub keep : (Transaction → Bool) → List Transaction → List Transaction
keep p [] = []
keep p (m ∷ ms) = let rest = keep p ms in if p m then m ∷ rest else rest

-- `.distinct()`
distinct : List String → List String
distinct [] = []
distinct (c ∷ cs) = let rest = distinct cs in if contains rest c then rest else c ∷ rest

-- `key=lambda c: (c != default_currency, c)`
comes_first : String → String → String → Bool
comes_first default a b =
    let by_text : Bool = elim (compare_text a b) [ Ordering.gt ↦ false | _ ↦ true ] in
    if str_eq a default then true else if str_eq b default then false else by_text

insert_currency : String → String → List String → List String
unfolding comes_first
insert_currency default c [] = c ∷ []
insert_currency default c (d ∷ ds) =
    if comes_first default c d then c ∷ d ∷ ds else d ∷ insert_currency default c ds

pub sort_currencies : String → List String → List String
unfolding insert_currency
sort_currencies default [] = []
sort_currencies default (c ∷ cs) = insert_currency default c (sort_currencies default cs)

-- `{c: a for c, a in before.items() if c not in anchors}`
unfoldable pub without :
    List (String × Transaction) → List (String × Transaction) → List (String × Transaction)
unfolding get_anchor
without anchors [] = []
without anchors ((c, a) ∷ before) =
    let rest = without anchors before in
    if is_some (get_anchor c anchors) then rest else (c, a) ∷ rest

abbrev pub first_of : Option Transaction → Option Transaction → Option Transaction
first_of (some a) other = some a
first_of none other = other

module _ (zone : Zone) (user : ℕ) where
  -- The dates of the period, from the arguments.
  unfoldable pub period : (today : ℕ) → Option ℕ → Option ℕ → (whole_history : Bool) → BalancePeriod
  period today start end true = record { start = none; end = none; is_default_month = false }
  period today none none false = record {
    start = some (today - (zone.day_of_month today - 1));
    end = some today;
    is_default_month = true;
  }
  period today (some start) none false = record {
    start = some start;
    end = some today;
    is_default_month = false;
  }
  period today start (some end) false = record {
    start = start;
    end = some end;
    is_default_month = false;
  }

  -- `until < since`
  unfoldable pub is_inverted : BalancePeriod → Bool
  is_inverted p = elim p.start [
    | none ↦ false
    | some since ↦ elim p.end [ none ↦ false | some until ↦ ltb until since ]
  ]

  unfoldable pub carried_on :
      Option ℕ → List Transaction → List (String × Transaction) → List (String × Transaction)
  unfolding latest_initial_balances without
  carried_on none incomes anchors = []
  carried_on (some since) incomes anchors =
      if zone.day_of_month since == 1
      then without anchors (
          latest_initial_balances zone user (some (since - carry_over_days)) (some (since - 1))
            incomes)
      else []

  -- `carried`; a period of the whole history has no start.
  unfoldable pub carried_anchors :
      BalancePeriod → List Transaction → List (String × Transaction) → List (String × Transaction)
  carried_anchors p incomes anchors = carried_on p.start incomes anchors

  unfoldable pub counts_in : BalancePeriod → String → Transaction → Bool
  counts_in p currency m =
      m.user == user && str_eq m.currency currency && in_period zone p.start p.end m

  -- What of the expenses counts_in, for an anchor of the currency.
  unfoldable pub counts_expense : BalancePeriod → String → Option Transaction → Transaction → Bool
  counts_expense p currency none m = counts_in p currency m
  counts_expense p currency (some anchor) m = counts_in p currency m && after_anchor zone anchor m

  unfoldable pub counts_income : BalancePeriod → String → Option Transaction → Transaction → Bool
  counts_income p currency none m = counts_in p currency m
  counts_income p currency (some anchor) m =
      counts_in p currency m
      && (m.id == anchor.id || after_anchor zone anchor m && not (is_initial m))

  -- The period of a currency whose initial balance is carried begins on the day of that.
  abbrev pub from_anchor : BalancePeriod → Option Transaction → BalancePeriod
  from_anchor p none = p
  from_anchor p (some anchor) = record {
    start = some (effective_day zone anchor);
    end = p.end;
    is_default_month = false;
  }

  -- One round of `for currency in currencies`, by the initial balance that is declared in the period
  -- and the one that is carried into it.
  unfoldable pub balance_from :
      BalancePeriod
      → List Transaction
      → List Transaction
      → String
      → (declared carried : Option Transaction) → CurrencyBalance
  unfolding counts_expense counts_income sum keep effective_day
  balance_from p expenses incomes currency declared carried =
      let anchor = first_of declared carried in
      let q : BalancePeriod = if is_some carried then from_anchor p anchor else p in
      let spent = sum (keep (counts_expense q currency anchor) expenses) in
      let received = sum (keep (counts_income q currency anchor) incomes) in
      record {
        balance_currency = currency;
        since_initial_balance = elim anchor [ none ↦ none | some a ↦ some (effective_day zone a) ];
        initial_balance = elim anchor [ none ↦ none | some a ↦ some a.amount ];
        carried_initial_balance = is_some carried;
        incomes_total = received.total;
        incomes_count = received.count;
        expenses_total = spent.total;
        expenses_count = spent.count;
        balance = received.total -ℤ spent.total;
      }

  unfoldable pub currency_balance :
      BalancePeriod
      → List Transaction
      → List Transaction
      → List (String × Transaction)
      → List (String × Transaction)
      → String
      → CurrencyBalance
  currency_balance p expenses incomes anchors carried currency =
      balance_from p expenses incomes currency (get_anchor currency anchors)
        (get_anchor currency carried)

  -- The currencies of the rows of the user in the period.
  seen_currencies : BalancePeriod → List Transaction → List String
  seen_currencies p ms =
      map (λ m. m.currency) (keep (λ m. m.user == user && in_period zone p.start p.end m) ms)

  or_default_currency : String → List String → List String
  or_default_currency default [] = default ∷ []
  or_default_currency default (c ∷ cs) = c ∷ cs

  unfoldable pub currencies_of :
      String
      → BalancePeriod
      → List Transaction
      → List Transaction
      → List (String × Transaction)
      → List String
  unfolding seen_currencies distinct or_default_currency sort_currencies
  currencies_of default p expenses incomes carried = sort_currencies default (
      or_default_currency default (
        distinct
          (seen_currencies p expenses ++ (seen_currencies p incomes ++ map (λ a. a.0) carried))))

  unfoldable pub balances_in :
      String
      → (whole_history : Bool) → BalancePeriod
      → List Transaction
      → List Transaction
      → List CurrencyBalance
  unfolding latest_initial_balances carried_anchors carried_on currencies_of currency_balance
      get_anchor balance_from
  balances_in default whole_history p expenses incomes =
      let anchors : List (String × Transaction) =
        if whole_history then [] else latest_initial_balances zone user p.start p.end incomes in
      let carried = carried_anchors p incomes anchors in
      map (currency_balance p expenses incomes anchors carried)
        (currencies_of default p expenses incomes carried)

  unfoldable pub compute_balance :
      (today : ℕ)
      → (default_currency : String) → Option ℕ
      → Option ℕ
      → (whole_history : Bool) → (expenses incomes : List Transaction)
      → Option (BalancePeriod × List CurrencyBalance)
  unfolding period is_inverted balances_in
  compute_balance today default start end whole_history expenses incomes =
      let p = period today start end whole_history in
      if is_inverted p then none else some (p, balances_in default whole_history p expenses incomes)
