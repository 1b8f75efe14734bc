-- ===== src/Common/Dict.antt =====
-- A database table or a Python dict keyed by numbers, as an association list in insertion order.
use tresqu_api.Common.{
  ℕ, ◌+◌, ◌≡◌, ◌≢◌, refl, Bool, Option, none, some, List, [], ◌∷◌, arith, ◌==◌, if◌then◌else◌,
}

abbrev pub Dict {ℓ} : Type ℓ → Type ℓ
Dict V = List (ℕ × V)

module _ {ℓ} {V : Type ℓ} where
  unfoldable pub lookup : ℕ → Dict V → Option V
  lookup k [] = none
  lookup k ((j, v) ∷ d) = if j == k then some v else lookup k d

  unfoldable pub insert : ℕ → V → Dict V → Dict V
  insert k v [] = (k, v) ∷ []
  insert k v ((j, w) ∷ d) = if j == k then (k, v) ∷ d else (j, w) ∷ insert k v d

  -- `UPDATE ... WHERE pk = k`: nothing where there is no such row.
  unfoldable pub modify : ℕ → (V → V) → Dict V → Dict V
  modify k f d = elim (lookup k d) [ none ↦ d | some v ↦ insert k (f v) d ]

  -- How many rows pass the test: `qs.filter(...).count()`.
  pub tally : (V → Bool) → Dict V → ℕ
  tally p [] = 0
  tally p ((j, v) ∷ d) = (if p v then 1 else 0) + tally p d

  pub lookup-insert :
      (k j : ℕ) (v : V) (d : Dict V)
      → lookup j (insert k v d) ≡ (if k == j then some v else lookup j d)
  unfolding lookup insert
  lookup-insert k j v [] = refl
  lookup-insert k j v ((i, w) ∷ d) = ground (arith, lookup-insert k j v d)

  pub lookup-insert_self : (k : ℕ) (v : V) (d : Dict V) → lookup k (insert k v d) ≡ some v
  lookup-insert_self k v d = ground (arith, lookup-insert k k v d)

  pub lookup-insert_ne :
      (k j : ℕ) (v : V) (d : Dict V) → k ≢ j → lookup j (insert k v d) ≡ lookup j d
  lookup-insert_ne k j v d h = ground (arith, lookup-insert k j v d)

  pub lookup-modify :
      (k : ℕ) (f : V → V) (v : V) (d : Dict V)
      → lookup k d ≡ some v
      → lookup k (modify k f d) ≡ some (f v)
  unfolding modify
  lookup-modify k f v d h = rw (h, modify) (lookup-insert_self k (f v) d)

  -- A write to an existing row moves the tally by what the row's test changes.
  pub tally-insert :
      (p : V → Bool) (k : ℕ) (v old : V) (d : Dict V)
      → lookup k d ≡ some old
      → tally p (insert k v d) + (if p old then 1 else 0) ≡ tally p d + (if p v then 1 else 0)
  unfolding lookup insert tally
  tally-insert p k v old [] h = cc
  tally-insert p k v old ((j, w) ∷ d) h = ground (arith, tally-insert p k v old d)

  -- A new row adds its own test.
  pub tally-insert_new :
      (p : V → Bool) (k : ℕ) (v : V) (d : Dict V)
      → lookup k d ≡ none
      → tally p (insert k v d) ≡ tally p d + (if p v then 1 else 0)
  unfolding lookup insert tally
  tally-insert_new p k v [] h = ground arith
  tally-insert_new p k v ((j, w) ∷ d) h = ground (arith, tally-insert_new p k v d)
