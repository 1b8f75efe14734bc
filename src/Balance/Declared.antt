-- ===== src/Balance/Declared.antt =====
-- expenses/balance.py, `compute_balance`: a currency with an initial balance, declared in the period or
-- carried into it.
use tresqu_api.Common.{
  ℕ, ◌-◌, ◌≡◌, refl, ap, sym, ◌∙◌, inl, inr, Bool, true, false, ◌&&◌, not, Option, none, some,
  some_inj, List, [], ◌∷◌, String, arith, ltb, leb, ◌==◌, str_eq, str_eq_iff, subst, Bool-cases,
  Option-cases, if◌then◌else◌, is_some,
}
use tresqu_api.Common.Int.{◌+ℤ◌, ◌-ℤ◌}
use tresqu_api.Balance.{
  Transaction, Zone, carry_over_days, effective_day, from_bound, get_anchor, is_anchor, is_initial,
  latest_initial_balances, to_bound,
}
use tresqu_api.Balance.Anchors.{
  Occurs, IsLatest, and_true, is_candidate, latest_initial_balances-IsLatest,
}
use tresqu_api.Balance.Compute.{
  CurrencyBalance, BalancePeriod, balance_from, carried_anchors, carried_on, counts_in,
  currency_balance, first_of, from_anchor, is_inverted, keep, sum, without,
}
use tresqu_api.Balance.Criterion.{IsZone, in_period_lem}
use tresqu_api.Balance.Totals.{DistinctIds, currency_balance_after, is_counted}

get_anchor-without :
    (currency : String) (anchors before : List (String × Transaction))
    → get_anchor currency (without anchors before)
      ≡ (if is_some (get_anchor currency anchors) then none else get_anchor currency before)
unfolding without get_anchor
get_anchor-without currency anchors [] = ground arith
get_anchor-without currency anchors ((c, m) ∷ before) = elim (Bool-cases (str_eq c currency)) [
  | inl same ↦ ground (
    arith,
    ap (λ k. get_anchor k anchors) ((str_eq_iff c currency).0 same),
    get_anchor-without currency anchors before,
  )
  | inr other ↦ ground (arith, get_anchor-without currency anchors before)
]

-- What is known of an initial balance that was chosen.
record Declared (zone : Zone) (user : ℕ) (since until : Option ℕ) (currency : String)
    (incomes : List Transaction) (a : Transaction) : Type 0 where
  mine : a.user == user ≡ true
  starts : from_bound since (effective_day zone a) ≡ true
  stops : to_bound until (effective_day zone a) ≡ true
  coin : str_eq a.currency currency ≡ true
  listed : Occurs a incomes

and_true4 :
    (a b c d : Bool) → a && b && c && d ≡ true → (a ≡ true) × (b ≡ true) × (c ≡ true) × (d ≡ true)
and_true4 a b c d h = ground arith

latest-Declared :
    (zone : Zone) (user : ℕ) (since until : Option ℕ) (currency : String)
    (incomes : List Transaction) (a : Transaction)
    → get_anchor currency (latest_initial_balances zone user since until incomes) ≡ some a
    → Declared zone user since until currency incomes a
unfolding is_candidate is_anchor
latest-Declared zone user since until currency incomes a e =
    let (candidate, listed, later) =
      subst (IsLatest zone user since until currency incomes) e
        (latest_initial_balances-IsLatest zone user since until currency incomes) in
    let (chosen, coin) =
      and_true (is_anchor zone user since until a) (str_eq a.currency currency) candidate in
    let f =
      and_true4 (a.user == user) (is_initial a) (from_bound since (effective_day zone a))
        (to_bound until (effective_day zone a)) chosen in
    record { mine = f.0; starts = f.2; stops = f.3; coin = coin; listed = listed }

chosen :
    (taken : Bool) (o : Option Transaction) (a : Transaction)
    → (if taken then none else o) ≡ some a
    → o ≡ some a
chosen true o a h = cc
chosen false o a h = h

ends_later :
    (end : Option ℕ) (since day : ℕ)
    → (elim end as (λ o. Bool) [ none ↦ false | some until ↦ ltb until since ]) ≡ false
    → leb day (since - 1) ≡ true
    → to_bound end day ≡ true
ends_later none since day h k = refl
ends_later (some until) since day h k = ground arith

module _ (zone : Zone) (law : IsZone zone) (user : ℕ) (p : BalancePeriod) (currency : String)
    (expenses incomes : List Transaction) (distinct_ids : DistinctIds incomes) where
  abbrev declared : List (String × Transaction)
  declared = latest_initial_balances zone user p.start p.end incomes

  abbrev carried : List (String × Transaction)
  carried = carried_anchors zone user p incomes declared

  -- An initial balance of the period, or a carried one, counts_in in the period that begins with it.
  Declared-counts_in :
      (since until : Option ℕ) (q : BalancePeriod) (a : Transaction)
      → Declared zone user since until currency incomes a
      → from_bound q.start (effective_day zone a) ≡ true
      → to_bound q.end (effective_day zone a) ≡ true
      → counts_in zone user q currency a ≡ true
  unfolding counts_in
  Declared-counts_in since until q a d starts stops =
      rw (d.mine, d.coin, in_period_lem zone law q.start q.end a, starts, stops) refl

  carried_on-none :
      (start : Option ℕ) (anchors : List (String × Transaction))
      → is_some (get_anchor currency anchors) ≡ true
      → get_anchor currency (carried_on zone user start incomes anchors) ≡ none
  unfolding carried_on get_anchor
  carried_on-none none anchors h = refl
  carried_on-none (some since) anchors h = elim (Bool-cases (zone.day_of_month since == 1)) [
    | inl first ↦
        let before =
          latest_initial_balances zone user (some (since - carry_over_days)) (some (since - 1))
            incomes in
        rw first (get_anchor-without currency anchors before ∙ rw h refl)
    | inr other ↦ rw other refl
  ]

  carried_on-some :
      (start : Option ℕ) (anchors : List (String × Transaction)) (a : Transaction)
      → get_anchor currency (carried_on zone user start incomes anchors) ≡ some a
      → (since : ℕ) × (start ≡ some since)
        × Declared zone user (some (since - carry_over_days)) (some (since - 1)) currency incomes a
  unfolding carried_on get_anchor
  carried_on-some none anchors a h = cc
  carried_on-some (some since) anchors a h = elim (Bool-cases (zone.day_of_month since == 1)) [
    | inl first ↦
        let before =
          latest_initial_balances zone user (some (since - carry_over_days)) (some (since - 1))
            incomes in
        let found : get_anchor currency before ≡ some a =
          chosen (is_some (get_anchor currency anchors)) (get_anchor currency before) a
            (sym (get_anchor-without currency anchors before) ∙ rw first at h) in
        (
          since,
          refl,
          latest-Declared zone user (some (since - carry_over_days)) (some (since - 1)) currency
              incomes a found,
        )
    | inr other ↦ let bad = rw other at h in cc
  ]

  abbrev Expected : Transaction → CurrencyBalance → Type 0
  Expected a b =
      b.balance
      ≡ a.amount
        +ℤ (sum (
            keep (λ m. is_counted zone law user p currency a m && not (is_initial m))
              incomes)).total
        -ℤ (sum (keep (is_counted zone law user p currency a) expenses)).total

  balance_from-Declared :
      (a : Transaction)
      → Declared zone user p.start p.end currency incomes a
      → Expected a (balance_from zone user p expenses incomes currency (some a) none)
  unfolding balance_from
  balance_from-Declared a d =
      currency_balance_after zone law user p currency a d.starts expenses incomes
        (Declared-counts_in p.start p.end p a d d.starts d.stops) distinct_ids d.listed

  -- The period that begins with a carried initial balance ends no earlier than that.
  carried_stops :
      (since : ℕ) (a : Transaction)
      → is_inverted zone user p ≡ false
      → p.start ≡ some since
      → Declared zone user (some (since - carry_over_days)) (some (since - 1)) currency incomes a
      → to_bound p.end (effective_day zone a) ≡ true
  unfolding is_inverted
  carried_stops since a upright start d =
      ends_later p.end since (effective_day zone a) (rw start at upright) d.stops

  balance_from_carried :
      (since : ℕ) (a : Transaction)
      → is_inverted zone user p ≡ false
      → p.start ≡ some since
      → Declared zone user (some (since - carry_over_days)) (some (since - 1)) currency incomes a
      → Expected a (balance_from zone user p expenses incomes currency none (some a))
  unfolding balance_from is_counted
  balance_from_carried since a upright start d =
      let q = from_anchor zone user p (some a) in
      let starts : from_bound q.start (effective_day zone a) ≡ true = ground arith in
      currency_balance_after zone law user q currency a starts expenses incomes
        (Declared-counts_in _ _ q a d starts (carried_stops since a upright start d)) distinct_ids
        d.listed

  -- The balance of a currency that is counted from an initial balance, be it declared in the period
  -- or carried into it: the declared amount, with the incomes that come after it and no other initial
  -- balance, less the expenses that come after it, all up to the end of the period.
  pub currency_balance-declared :
      (a : Transaction)
      → is_inverted zone user p ≡ false
      → first_of (get_anchor currency declared) (get_anchor currency carried) ≡ some a
      → (currency_balance zone user p expenses incomes declared carried currency).balance
        ≡ a.amount
          +ℤ (sum (
              keep
                (λ m. is_counted zone law user p currency a m && not (is_initial m))
                incomes)).total
          -ℤ (sum (keep (is_counted zone law user p currency a) expenses)).total
  unfolding currency_balance carried_anchors
  currency_balance-declared a upright chosen_a =
      elim (Option-cases (get_anchor currency declared)) [
        | inr (b, e) ↦
            let none_carried = carried_on-none p.start declared (rw e refl) in
            let same : b ≡ a = some_inj (rw e at chosen_a) in
            rw (e, none_carried)
              (subst
                (λ c. Expected a (balance_from zone user p expenses incomes currency (some c) none))
                (sym same)
                (balance_from-Declared a
                  (latest-Declared zone user p.start p.end currency incomes a (e ∙ ap some same))))
        | inl e ↦
            let is_carried = rw e at chosen_a in
            let (since, start, d) = carried_on-some p.start declared a is_carried in
            rw (e, is_carried) (balance_from_carried since a upright start d)
      ]
