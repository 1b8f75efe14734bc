-- ===== src/Balance/Anchors.antt =====
-- expenses/balance.py, `latest_initial_balances`: which initial balance a currency is counted from.
use tresqu_api.Common.{
  ℕ, ◌≡◌, ◌⊎◌, refl, ap, sym, ◌∙◌, inl, inr, Bool, true, false, ◌&&◌, Option, none, some, some_inj,
  List, [], ◌∷◌, String, arith, str_eq, str_eq_iff, Bool-cases, if◌then◌else◌,
}
use tresqu_api.Balance.{
  Transaction, Zone, add_anchors, get_anchor, is_anchor, is_later, key_before,
  latest_initial_balances, put_anchor,
}

get-put_anchor :
    (k j : String) (m : Transaction) (anchors : List (String × Transaction))
    → get_anchor j (put_anchor k m anchors) ≡ (if str_eq k j then some m else get_anchor j anchors)
unfolding get_anchor put_anchor
get-put_anchor k j m [] = refl
get-put_anchor k j m ((i, n) ∷ anchors) =
    ground (arith, str_eq_iff k j, str_eq_iff i k, str_eq_iff i j, get-put_anchor k j m anchors)

pub and_true : (a b : Bool) → a && b ≡ true → (a ≡ true) × (b ≡ true)
and_true a b h = ground arith

and_true-false : (a : Bool) → a && true ≡ false → a ≡ false
and_true-false a h = ground arith

-- The movement is one of the list.
abbrev pub Occurs : Transaction → List Transaction → Type 0
Occurs a [] = ⊥
Occurs a (m ∷ ms) = (a ≡ m) ⊎ Occurs a ms

module _ (zone : Zone) where
  key_before_asym : (a b : Transaction) → key_before zone a b ≡ true → key_before zone b a ≡ false
  unfolding key_before
  key_before_asym a b h = ground arith

  -- Not being before is transitive.
  key_before_trans :
      (a b c : Transaction)
      → key_before zone b c ≡ false
      → key_before zone a b ≡ false
      → key_before zone a c ≡ false
  unfolding key_before
  key_before_trans a b c h k = ground arith

  module _ (user : ℕ) (since until : Option ℕ) (currency : String) where
    -- An initial balance of the user, in the period, in the currency.
    unfoldable pub is_candidate : Transaction → Bool
    is_candidate m = is_anchor zone user since until m && str_eq m.currency currency

    -- The loop, for one currency.
    best : Option Transaction → List Transaction → Option Transaction
    best current [] = current
    best current (m ∷ ms) =
        best (if is_candidate m && is_later zone current m then some m else current) ms

    abbrev next : Option Transaction → Transaction → Option Transaction
    next current m = if is_candidate m && is_later zone current m then some m else current

    get_anchor-next :
        (m : Transaction) (anchors : List (String × Transaction))
        → get_anchor currency (
            if is_anchor zone user since until m && is_later zone (get_anchor m.currency anchors) m
            then put_anchor m.currency m anchors
            else anchors)
          ≡ next (get_anchor currency anchors) m
    unfolding is_candidate
    get_anchor-next m anchors = elim (Bool-cases (str_eq m.currency currency)) [
      | inl same ↦ ground (
        arith,
        ap (λ c. get_anchor c anchors) ((str_eq_iff m.currency currency).0 same),
        get-put_anchor m.currency currency m anchors,
      )
      | inr other ↦ ground (arith, get-put_anchor m.currency currency m anchors)
    ]

    get_anchor-add_anchors :
        (ms : List Transaction) (anchors : List (String × Transaction))
        → get_anchor currency (add_anchors zone user since until ms anchors)
          ≡ best (get_anchor currency anchors) ms
    unfolding add_anchors best
    get_anchor-add_anchors [] anchors = refl
    get_anchor-add_anchors (m ∷ ms) anchors =
        get_anchor-add_anchors ms _ ∙ ap (λ o. best o ms) (get_anchor-next m anchors)

    -- Every candidate of the list is at most as late as `a`.
    abbrev pub NoneLater : Transaction → List Transaction → Type 0
    NoneLater a [] = Unit {0}
    NoneLater a (m ∷ ms) = (is_candidate m ≡ true → key_before zone a m ≡ false) × NoneLater a ms

    abbrev pub NoCandidate : List Transaction → Type 0
    NoCandidate [] = Unit {0}
    NoCandidate (m ∷ ms) = (is_candidate m ≡ false) × NoCandidate ms

    -- What the loop ends with, begun with `current`.
    abbrev Best : Option Transaction → List Transaction → Option Transaction → Type 0
    Best current ms none = (current ≡ none) × NoCandidate ms
    Best current ms (some a) =
        ((current ≡ some a) ⊎ ((is_candidate a ≡ true) × Occurs a ms))
        × NoneLater a ms
        × ((b : Transaction) → current ≡ some b → key_before zone a b ≡ false)

    key_before_irrefl : (a : Transaction) → key_before zone a a ≡ false
    unfolding key_before
    key_before_irrefl a = ground arith

    from_taken :
        (m a : Transaction) (ms : List Transaction)
        → is_candidate m ≡ true
        → (◌≡◌ {A = Option Transaction} (some m) (some a)) ⊎ ((is_candidate a ≡ true) × Occurs a ms)
        → (is_candidate a ≡ true) × ((a ≡ m) ⊎ Occurs a ms)
    from_taken m a ms c (inl e) = (rw (← some_inj e) c, inl (sym (some_inj e)))
    from_taken m a ms c (inr (ca, occurs)) = (ca, inr occurs)

    taken_after :
        (current : Option Transaction) (m b : Transaction)
        → is_later zone current m ≡ true
        → current ≡ some b
        → key_before zone b m ≡ true
    unfolding is_later
    taken_after none m b l e = cc
    taken_after (some other) m b l e = rw (← some_inj e) l

    from_kept :
        (current : Option Transaction) (m a : Transaction) (ms : List Transaction)
        → (current ≡ some a) ⊎ ((is_candidate a ≡ true) × Occurs a ms)
        → (current ≡ some a) ⊎ ((is_candidate a ≡ true) × ((a ≡ m) ⊎ Occurs a ms))
    from_kept current m a ms (inl e) = inl e
    from_kept current m a ms (inr (ca, occurs)) = inr (ca, inr occurs)

    -- A candidate that was passed over is not later.
    kept_before :
        (current : Option Transaction) (m a : Transaction)
        → is_candidate m && is_later zone current m ≡ false
        → ((b : Transaction) → current ≡ some b → key_before zone a b ≡ false)
        → is_candidate m ≡ true
        → key_before zone a m ≡ false
    unfolding is_later
    kept_before none m a n below c = let bad = rw c at n in cc
    kept_before (some b) m a n below c = key_before_trans a b m (rw c at n) (below b refl)

    taken-Best :
        (current : Option Transaction) (m : Transaction) (ms : List Transaction)
        (r : Option Transaction)
        → is_candidate m ≡ true
        → is_later zone current m ≡ true
        → Best (some m) ms r
        → Best current (m ∷ ms) r
    unfolding is_later
    taken-Best current m ms none c l h = cc
    taken-Best current m ms (some a) c l (from, later, below) = (
      inr (from_taken m a ms c from),
      (λ _. below m refl, later),
      λ b e.
          key_before_trans a m b (key_before_asym b m (taken_after current m b l e)) (below m refl),
    )

    kept-Best :
        (current : Option Transaction) (m : Transaction) (ms : List Transaction)
        (r : Option Transaction)
        → is_candidate m && is_later zone current m ≡ false
        → Best current ms r
        → Best current (m ∷ ms) r
    unfolding is_later
    kept-Best none m ms none n (e, nothing) = (refl, (and_true-false (is_candidate m) n, nothing))
    kept-Best (some b) m ms none n (e, nothing) = cc
    kept-Best current m ms (some a) n (from, later, below) =
        (from_kept current m a ms from, (kept_before current m a n below, later), below)

    best-Best :
        (current : Option Transaction) (ms : List Transaction) → Best current ms (best current ms)
    unfolding best
    best-Best none [] = (refl, tt)
    best-Best (some a) [] = (inl refl, tt, λ b e. rw (sym (some_inj e)) (key_before_irrefl a))
    best-Best current (m ∷ ms) = elim (Bool-cases (is_candidate m && is_later zone current m)) [
      | inl taken ↦ rw taken (
          taken-Best current m ms (best (some m) ms) (and_true _ _ taken).0 (and_true _ _ taken).1
            (best-Best (some m) ms))
      | inr kept ↦ rw kept (kept-Best current m ms (best current ms) kept (best-Best current ms))
    ]

    -- What `latest_initial_balances` gives for a currency.
    abbrev pub IsLatest : List Transaction → Option Transaction → Type 0
    IsLatest incomes none = NoCandidate incomes
    IsLatest incomes (some a) = (is_candidate a ≡ true) × Occurs a incomes × NoneLater a incomes

    Best-IsLatest :
        (incomes : List Transaction) (r : Option Transaction)
        → Best none incomes r
        → IsLatest incomes r
    Best-IsLatest incomes none (e, nothing) = nothing
    Best-IsLatest incomes (some a) (inl e, later, below) = cc
    Best-IsLatest incomes (some a) (inr (c, occurs), later, below) = (c, occurs, later)

    -- A currency is counted from an initial balance of the user in the period such that no other one
    -- of the currency is later (by its date, then by when it was recorded, then by its id); where
    -- there is none, from nothing.
    pub latest_initial_balances-IsLatest :
        (incomes : List Transaction)
        → IsLatest incomes
            (get_anchor currency (latest_initial_balances zone user since until incomes))
    unfolding latest_initial_balances get_anchor
    latest_initial_balances-IsLatest incomes =
        rw (get_anchor-add_anchors incomes []) (Best-IsLatest incomes _ (best-Best none incomes))
