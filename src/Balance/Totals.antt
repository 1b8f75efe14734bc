-- ===== src/Balance/Totals.antt =====
-- expenses/balance.py: what the balance of a currency is, where it is counted from a declared initial
-- balance.
use mathlib.Core.Path.{fun_ext}
use tresqu_api.Common.{
  ℕ, ◌≡◌, ◌≢◌, refl, ap, sym, ◌∙◌, inl, inr, Bool, true, false, ◌&&◌, ◌||◌, not, Option, none, some,
  List, [], ◌∷◌, String, arith, ◌==◌, str_eq, Bool-cases,
}
use tresqu_api.Common.Int.{ℤ, pos_part, neg_part, ◌+ℤ◌, ◌-ℤ◌, +ℤ_parts, eq_of_parts}
use tresqu_api.Balance.{
  Transaction, Zone, after_anchor, effective_day, from_bound, is_initial, to_bound,
}
use tresqu_api.Balance.Anchors.{Occurs}
use tresqu_api.Balance.Compute.{BalancePeriod, counts_in, counts_expense, counts_income, keep, sum}
use tresqu_api.Balance.Criterion.{IsZone, after_anchor_lem, comes_after, in_period_lem}

-- No two rows have one id.
abbrev pub Absent : ℕ → List Transaction → Type 0
Absent id [] = Unit {0}
Absent id (m ∷ ms) = (m.id ≢ id) × Absent id ms

abbrev pub DistinctIds : List Transaction → Type 0
DistinctIds [] = Unit {0}
DistinctIds (m ∷ ms) = Absent m.id ms × DistinctIds ms

Absent-Occurs :
    (id : ℕ) (a : Transaction) (ms : List Transaction) → Absent id ms → Occurs a ms → a.id ≢ id
Absent-Occurs id a [] h o = elim o [ ]
Absent-Occurs id a (m ∷ ms) h (inl e) = rw e h.0
Absent-Occurs id a (m ∷ ms) h (inr o) = Absent-Occurs id a ms h.1 o

keep_ext :
    (p q : Transaction → Bool) (ms : List Transaction)
    → ((m : Transaction) → p m ≡ q m)
    → keep p ms ≡ keep q ms
keep_ext p q ms h = ap (λ f. keep f ms) (fun_ext h)

swap : (m a x y : ℤ) → x ≡ a +ℤ y → m +ℤ x ≡ a +ℤ (m +ℤ y)
swap m a x y e = eq_of_parts _ _ (
    omega (
      arith,
      ap pos_part e,
      ap neg_part e,
      +ℤ_parts a y,
      +ℤ_parts m x,
      +ℤ_parts m y,
      +ℤ_parts a (m +ℤ y),
    ))

module _ (r s : Transaction → Bool) (a : Transaction)
    (same : (m : Transaction) → m.id ≢ a.id → r m ≡ s m) where
  keep-Absent : (ms : List Transaction) → Absent a.id ms → keep r ms ≡ keep s ms
  unfolding keep
  keep-Absent [] h = refl
  keep-Absent (m ∷ ms) h = rw (same m h.0, keep-Absent ms h.1) refl

  -- Where only `a` passes one test and not the other, it is counted once more.
  total_once :
      r a ≡ true
      → s a ≡ false
      → (ms : List Transaction) → DistinctIds ms
      → Occurs a ms
      → (sum (keep r ms)).total ≡ a.amount +ℤ (sum (keep s ms)).total
  unfolding sum keep
  total_once yes_a no_a [] d o = elim o [ ]
  total_once yes_a no_a (m ∷ ms) d (inl e) =
      let yes_m : r m ≡ true = rw (← e) yes_a in
      let no_m : s m ≡ false = rw (← e) no_a in
      let absent : Absent a.id ms = rw e d.0 in
      rw (yes_m, no_m, keep-Absent ms absent)
        (ap (λ b. b.amount +ℤ (sum (keep s ms)).total) (sym e))
  total_once yes_a no_a (m ∷ ms) d (inr o) =
      let other : m.id ≢ a.id = λ e. Absent-Occurs m.id a ms d.0 o (sym e) in
      let rest = total_once yes_a no_a ms d.1 o in
      elim (Bool-cases (s m)) [
        | inl kept ↦ rw (same m other, kept) (swap m.amount a.amount _ _ rest)
        | inr dropped ↦ rw (same m other, dropped) rest
      ]

bound_after :
    (start : Option ℕ) (zone : Zone) (a m : Transaction)
    → from_bound start (effective_day zone a) ≡ true
    → comes_after zone a m ≡ true
    → from_bound start (effective_day zone m) ≡ true
bound_after none zone a m h c = refl
bound_after (some start) zone a m h c = ground arith

drop_bound :
    (u c from to after : Bool)
    → (after ≡ true → from ≡ true)
    → (u && c && (from && to)) && after ≡ u && c && to && after
drop_bound true true true to after h = refl
drop_bound true true false true true h = let bad = h refl in cc
drop_bound true true false true false h = refl
drop_bound true true false false after h = refl
drop_bound true false from to after h = refl
drop_bound false c from to after h = refl

other_id : (c x : Bool) (i j : ℕ) → i ≢ j → (c && i == j || x) ≡ x
other_id c x i j n = ground arith

self_after : (zone : Zone) (a : Transaction) → comes_after zone a a ≡ false
self_after zone a = ground arith

income_test :
    (counted id after initial : Bool)
    → (counted && (id || after && not initial))
      ≡ (counted && id || (counted && after) && not initial)
income_test true id after initial = refl
income_test false id after initial = refl

module _ (zone : Zone) (law : IsZone zone) (user : ℕ) (p : BalancePeriod) (currency : String)
    (a : Transaction) where
  -- The movements after the initial balance `a`, up to the end of the period.
  unfoldable pub is_counted : Transaction → Bool
  is_counted m =
      m.user == user
      && str_eq m.currency currency
      && to_bound p.end (effective_day zone m)
      && comes_after zone a m

  module _ (early : from_bound p.start (effective_day zone a) ≡ true) where
    -- For a period that begins no later than the day of the initial balance.
    counts_in_after :
        (m : Transaction)
        → (counts_in zone user p currency m && after_anchor zone a m) ≡ is_counted m
    unfolding counts_in is_counted
    counts_in_after m =
        rw (in_period_lem zone law p.start p.end m, after_anchor_lem zone law a m)
          (drop_bound (m.user == user) (str_eq m.currency currency)
            (from_bound p.start (effective_day zone m)) (to_bound p.end (effective_day zone m))
            (comes_after zone a m) (bound_after p.start zone a m early))

    expense_test : (m : Transaction) → counts_expense zone user p currency (some a) m ≡ is_counted m
    unfolding counts_expense
    expense_test m = counts_in_after m

    counts_income-is_counted :
        (m : Transaction)
        → counts_income zone user p currency (some a) m
          ≡ (counts_in zone user p currency m && m.id == a.id || is_counted m && not (is_initial m))
    unfolding counts_income
    counts_income-is_counted m =
        income_test (counts_in zone user p currency m) (m.id == a.id) (after_anchor zone a m)
          (is_initial m)
        ∙ ap (λ b. counts_in zone user p currency m && m.id == a.id || b && not (is_initial m))
            (counts_in_after m)

    own_id :
        counts_in zone user p currency a ≡ true
        → counts_income zone user p currency (some a) a ≡ true
    unfolding counts_income
    own_id mine = rw mine (ground arith)

    own_after : (initial : Bool) → is_counted a && not initial ≡ false
    unfolding is_counted
    own_after initial = ground (arith, self_after zone a)

    -- The movement `a` is counted, and nothing else of its id is.
    spent_total :
        (ms : List Transaction)
        → keep (counts_expense zone user p currency (some a)) ms ≡ keep is_counted ms
    spent_total ms = keep_ext _ _ ms expense_test

    received_total :
        (ms : List Transaction)
        → counts_in zone user p currency a ≡ true
        → DistinctIds ms
        → Occurs a ms
        → (sum (keep (counts_income zone user p currency (some a)) ms)).total
          ≡ a.amount +ℤ (sum (keep (λ m. is_counted m && not (is_initial m)) ms)).total
    received_total ms mine d o =
        total_once (counts_income zone user p currency (some a))
          (λ m. is_counted m && not (is_initial m)) a
          (λ m n.
            counts_income-is_counted m
            ∙ other_id (counts_in zone user p currency m) (is_counted m && not (is_initial m)) m.id
                a.id n)
          (own_id mine) (own_after (is_initial a)) ms d o

    -- The balance of a currency with the initial balance `a`.
    pub currency_balance_after :
        (expenses incomes : List Transaction)
        → counts_in zone user p currency a ≡ true
        → DistinctIds incomes
        → Occurs a incomes
        → ((sum (keep (counts_income zone user p currency (some a)) incomes)).total
              -ℤ (sum (keep (counts_expense zone user p currency (some a)) expenses)).total
            ≡ a.amount
              +ℤ (sum (keep (λ m. is_counted m && not (is_initial m)) incomes)).total
              -ℤ (sum (keep is_counted expenses)).total)
    currency_balance_after expenses incomes mine d o =
        rw (received_total incomes mine d o, spent_total expenses) refl
