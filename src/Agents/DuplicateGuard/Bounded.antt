-- ===== src/Agents/DuplicateGuard/Bounded.antt =====
-- A turn keeps at most as many identical movements as the user wrote.
use tresqu_api.Common.{
  ℕ, ◌+◌, ◌≤◌, ◌≡◌, refl, subst, ◌∙◌, false, Option, none, some, some_inj, List, [], ◌∷◌, ◌++◌,
  String, ap, arith, length, Bool-cases, Option-cases, inl, inr,
}
use text.Mathlib.Text.{starts_with}
use tresqu_api.Agents.DuplicateGuard.{
  Reader, Key, TurnCreations, Creation, new_turn, is_same_key, results_of, add_result, limit_for,
  is_full, key_of, kept, create, create_all,
}
use tresqu_api.Agents.DuplicateGuard.Keys.{is_same_key-eq, results_of-add, results_of-add_ne}

-- Where the user's texts set a limit for an amount, each movement of that amount is within it.
abbrev pub IsBounded : Reader → TurnCreations → Type 0
IsBounded reader turn =
    (key : Key) (limit : ℕ)
    → limit_for reader turn key.value ≡ some limit
    → length (results_of key turn.created_results) ≤ limit

pub length_snoc : (rs : List String) (r : String) → length (rs ++ r ∷ []) ≡ length rs + 1
length_snoc [] r = refl
length_snoc (x ∷ xs) r = omega (arith, length_snoc xs r)

below_limit :
    (limit : ℕ) (o : Option ℕ) (rs : List String)
    → o ≡ some limit
    → is_full o rs ≡ false
    → length rs + 1 ≤ limit
unfolding is_full
below_limit limit none rs h f = cc
below_limit limit (some n) rs h f = let e : n ≡ limit = some_inj h in ground arith

module _ (reader : Reader) (turn : TurnCreations) (bounded : IsBounded reader turn) where
  added-IsBounded :
      (key : Key) (result : String)
      → is_full (limit_for reader turn key.value) (results_of key turn.created_results) ≡ false
      → IsBounded reader
          (record turn { created_results = add_result key result turn.created_results })
  unfolding limit_for
  added-IsBounded key result room other limit h = elim (Bool-cases (is_same_key key other)) [
    | inl t ↦
        let e = is_same_key-eq key other t in
        let limit_is : limit_for reader turn key.value ≡ some limit =
          ap (λ k. limit_for reader turn k.value) e ∙ h in
        let low =
          below_limit limit (limit_for reader turn key.value) (results_of key turn.created_results)
            limit_is room in
        subst (λ k. length (results_of k (add_result key result turn.created_results)) ≤ limit) e
          (rw
            (
              results_of-add key result turn.created_results,
              length_snoc (results_of key turn.created_results) result,
            )
            low)
    | inr f ↦ rw (results_of-add_ne key other result turn.created_results f) (bounded other limit h)
  ]

  kept-IsBounded {ℓ} :
      {W : Type ℓ} (key : Key) (made : String × W)
      → is_full (limit_for reader turn key.value) (results_of key turn.created_results) ≡ false
      → IsBounded reader (kept key turn made).2
  unfolding kept
  kept-IsBounded key (result, w) room = elim (Bool-cases (starts_with result "Error")) [
    | inl t ↦ rw (t, kept) bounded
    | inr f ↦ rw (f, kept) (added-IsBounded key result room)
  ]

  create-IsBounded {ℓ} :
      {W : Type ℓ} (c : Creation) (do_create : W → String × W) (w : W)
      → IsBounded reader (create reader c do_create w turn).2
  unfolding create key_of
  create-IsBounded c do_create w = elim (Option-cases c.amount) [
    | inl n ↦ rw (n, create) bounded
    | inr (value, e) ↦
        elim (Bool-cases (
          is_full (limit_for reader turn value)
            (results_of (key_of reader c value) turn.created_results))) [
              | inl t ↦ rw (e, create, t) bounded
              | inr f ↦ rw (e, create, f) (kept-IsBounded (key_of reader c value) (do_create w) f)
            ]
  ]

create_all-IsBounded {ℓ} :
    {W : Type ℓ} (reader : Reader) (calls : List (Creation × (W → String × W))) (w : W)
    (turn : TurnCreations)
    → IsBounded reader turn
    → IsBounded reader (create_all reader calls w turn).1
unfolding create_all
create_all-IsBounded reader [] w turn b = b
create_all-IsBounded reader ((c, do_create) ∷ calls) w turn b =
    create_all-IsBounded reader calls (create reader c do_create w turn).1
      (create reader c do_create w turn).2 (create-IsBounded reader turn b c do_create w)

-- However often the agent calls `create` in a turn, the guard has kept at the end no more results
-- of one movement than the user wrote its amount (in this message or the one before, and one at
-- least), unless the user asked for a repetition.
pub new_turn-IsBounded {ℓ} :
    {W : Type ℓ} (reader : Reader) (calls : List (Creation × (W → String × W))) (w : W)
    (message previous : String)
    → IsBounded reader (create_all reader calls w (new_turn message previous)).1
unfolding new_turn results_of
new_turn-IsBounded reader calls w message previous =
    create_all-IsBounded reader calls w (new_turn message previous) (λ key limit h. omega arith)
