-- ===== src/Agents/DuplicateGuard/Made.antt =====
-- How many movements the calls of one turn make (agents/duplicate_guard.py).
use text.Mathlib.Text.{starts_with}
use tresqu_api.Common.{
  ℕ, ◌+◌, ◌≤◌, ◌≡◌, refl, subst, sym, ◌∙◌, ap, Bool, true, false, not, ◌&&◌, Option, none, some,
  List, [], ◌∷◌, map, String, arith, length, count_if, if◌then◌else◌, Bool-cases, Option-cases, inl,
  inr,
}
use tresqu_api.Common.Int.{ℤ}
use tresqu_api.Agents.DuplicateGuard.{
  Reader, Key, TurnCreations, Creation, new_turn, is_same_key, results_of, add_result, limit_for,
  is_full, key_of, kept, refusal, create, create_all,
}
use tresqu_api.Agents.DuplicateGuard.Keys.{is_same_key-eq, results_of-add, results_of-add_ne}
use tresqu_api.Agents.DuplicateGuard.Bounded.{length_snoc, new_turn-IsBounded}

and_false : (b : Bool) → (b && false) ≡ false
and_false b = ground arith

and_true : (b : Bool) → (b && true) ≡ b
and_true b = ground arith

-- What a creation was asked for, and what it answered.
abbrev pub Runs : Type 0
Runs = List (Creation × String)

-- A creation that writes its runs down beside the state.
abbrev pub logged {ℓ} :
    {W : Type ℓ} → Creation × (W → String × W) → Creation × (W × Runs → String × (W × Runs))
logged (c, do_create) =
    (c, λ s. ((do_create s.0).0, ((do_create s.0).1, (c, (do_create s.0).0) ∷ s.1)))

abbrev pub is_made_at : Reader → Key → Creation → String → Option ℤ → Bool
is_made_at reader key c result none = false
is_made_at reader key c result (some value) =
    is_same_key (key_of reader c value) key && not (starts_with result "Error")

-- A run that made the movement of the key: its amount is a number, and it did not answer an error.
abbrev pub is_made : Reader → Key → Creation × String → Bool
is_made reader key (c, result) = is_made_at reader key c result c.amount

count_if_cons {ℓ} :
    {A : Type ℓ} (p : A → Bool) (x : A) (xs : List A) (b : Bool)
    → p x ≡ b
    → count_if p (x ∷ xs) ≡ (if b then 1 else 0) + count_if p xs
count_if_cons p x xs b h = rw h refl

module _ (reader : Reader) where
  -- The guard has kept a result for each movement that was made.
  abbrev IsComplete : Runs → TurnCreations → Type 0
  IsComplete runs turn =
      (key : Key)
      → count_if (is_made reader key) runs ≡ length (results_of key turn.created_results)

  -- What a call returns: the guard is complete, and reads the same texts.
  abbrev IsKept {ℓ} : {W : Type ℓ} → TurnCreations → String × (W × Runs) × TurnCreations → Type 0
  IsKept turn (result, (w, runs), turn') =
      IsComplete runs turn'
      × (turn'.user_message ≡ turn.user_message)
      × (turn'.previous_user_message ≡ turn.previous_user_message)

  module _ (c : Creation) (result : String) (runs : Runs) (turn : TurnCreations)
      (complete : IsComplete runs turn) where
    unmade-IsComplete :
        ((key : Key) → is_made reader key (c, result) ≡ false)
        → IsComplete ((c, result) ∷ runs) turn
    unmade-IsComplete unmade key =
        let n = count_if_cons (is_made reader key) (c, result) runs false (unmade key) in
        omega (arith, n, complete key)

    made-IsComplete :
        (own : Key)
        → ((key : Key) → is_made reader key (c, result) ≡ is_same_key own key)
        → IsComplete
            ((c, result) ∷ runs)
            (record turn { created_results = add_result own result turn.created_results })
    made-IsComplete own made key = elim (Bool-cases (is_same_key own key)) [
      | inl s ↦
          let n = count_if_cons (is_made reader key) (c, result) runs true (made key ∙ s) in
          let same = is_same_key-eq own key s in
          let more =
            ap length (results_of-add own result turn.created_results)
            ∙ length_snoc (results_of own turn.created_results) result in
          let here : count_if (is_made reader own) runs
              ≡ length (results_of own turn.created_results) =
            complete own in
          subst
            (λ k.
              count_if (is_made reader k) ((c, result) ∷ runs)
              ≡ length (results_of k (add_result own result turn.created_results)))
            same
            (let m =
                count_if_cons (is_made reader own) (c, result) runs true
                  (made own ∙ (rw (sym same) at s)) in
              omega (arith, m, more, here))
      | inr s ↦
          let n = count_if_cons (is_made reader key) (c, result) runs false (made key ∙ s) in
          let same = ap length (results_of-add_ne own key result turn.created_results s) in
          omega (arith, n, same, complete key)
    ]

    kept-IsKept {ℓ} :
        {W : Type ℓ} (value : ℤ) (w : W)
        → c.amount ≡ some value
        → IsKept turn (kept (key_of reader c value) turn (result, (w, (c, result) ∷ runs)))
    unfolding kept
    kept-IsKept value w e =
        let own = key_of reader c value in
        elim (Bool-cases (starts_with result "Error")) [
          | inl t ↦ rw t (
            unmade-IsComplete (λ key.
                ap (is_made_at reader key c result) e
                ∙ ap (λ b. is_same_key own key && not b) t
                ∙ and_false (is_same_key own key)),
            refl,
            refl,
          )
          | inr f ↦ rw f (
            made-IsComplete own (λ key.
                ap (is_made_at reader key c result) e
                ∙ ap (λ b. is_same_key own key && not b) f
                ∙ and_true (is_same_key own key)),
            refl,
            refl,
          )
        ]

  module _ {ℓ} {W : Type ℓ} (c : Creation) (f : W → String × W) (w : W) (turn : TurnCreations) where
    create_unnumbered : c.amount ≡ none → create reader c f w turn ≡ ((f w).0, (f w).1, turn)
    unfolding create
    create_unnumbered e = rw (e, create) refl

    create_full :
        (value : ℤ)
        → c.amount ≡ some value
        → is_full
            (limit_for reader turn value)
            (results_of (key_of reader c value) turn.created_results)
          ≡ true
        → create reader c f w turn ≡ (
          refusal reader
              (key_of reader c value)
              (results_of (key_of reader c value) turn.created_results),
          w,
          turn,
        )
    unfolding create key_of
    create_full value e full = rw (e, create, full) refl

    create_run :
        (value : ℤ)
        → c.amount ≡ some value
        → is_full
            (limit_for reader turn value)
            (results_of (key_of reader c value) turn.created_results)
          ≡ false
        → create reader c f w turn ≡ kept (key_of reader c value) turn (f w)
    unfolding create key_of
    create_run value e room = rw (e, create, room) refl

  create-IsKept {ℓ} :
      {W : Type ℓ} (c : Creation) (f : W → String × W) (w : W) (runs : Runs) (turn : TurnCreations)
      → IsComplete runs turn
      → IsKept turn (create reader c (logged (c, f)).1 (w, runs) turn)
  create-IsKept c f w runs turn complete =
      let g = (logged (c, f)).1 in
      elim (Option-cases c.amount) [
        | inl n ↦
            subst (λ r. IsKept turn r) (sym (create_unnumbered c g (w, runs) turn n))
              (
                unmade-IsComplete c (f w).0 runs turn complete
                    (λ key. ap (is_made_at reader key c (f w).0) n),
                refl,
                refl,
              )
        | inr (value, e) ↦
            elim (Bool-cases (
              is_full (limit_for reader turn value)
                (results_of (key_of reader c value) turn.created_results))) [
                  | inl t ↦
                      subst (λ r. IsKept turn r) (sym (create_full c g (w, runs) turn value e t))
                        (complete, refl, refl)
                  | inr room ↦
                      subst (λ r. IsKept turn r) (sym (create_run c g (w, runs) turn value e room))
                        (kept-IsKept c (f w).0 runs turn complete value (f w).1 e)
                ]
      ]

  create_all-IsKept {ℓ} :
      {W : Type ℓ} (calls : List (Creation × (W → String × W))) (w : W) (runs : Runs)
      (turn : TurnCreations) (message : String)
      → IsComplete runs turn
      → let end = create_all reader (map logged calls) (w, runs) turn in
        IsKept turn (message, end.0, end.1)
  unfolding create_all
  create_all-IsKept [] w runs turn message complete = (complete, refl, refl)
  create_all-IsKept ((c, f) ∷ calls) w runs turn message complete =
      let made = create reader c (logged (c, f)).1 (w, runs) turn in
      let first = create-IsKept c f w runs turn complete in
      let rest = create_all-IsKept calls made.1.0 made.1.1 made.2 message first.0 in
      (rest.0, rest.1 ∙ first.1, rest.2 ∙ first.2)

same_limit :
    (reader : Reader) (turn turn' : TurnCreations) (amount : ℤ)
    → turn'.user_message ≡ turn.user_message
    → turn'.previous_user_message ≡ turn.previous_user_message
    → limit_for reader turn' amount ≡ limit_for reader turn amount
unfolding limit_for
same_limit reader turn turn' amount u p = rw (u, p) refl

-- However often the agent calls `create` in a turn, the creations that it runs make one movement no
-- more often than the user wrote its amount (in this message or the one before, and once at least),
-- unless the user asked for a repetition. A movement is made by a run on a numeric amount that does
-- not answer an error.
pub create_all-limit_for {ℓ} :
    {W : Type ℓ} (reader : Reader) (calls : List (Creation × (W → String × W))) (w : W)
    (message previous : String) (key : Key) (limit : ℕ)
    → limit_for reader (new_turn message previous) key.value ≡ some limit
    → count_if
        (is_made reader key)
        (create_all reader (map logged calls) (w, []) (new_turn message previous)).0.1
      ≤ limit
unfolding new_turn results_of
create_all-limit_for reader calls w message previous key limit h =
    let turn = new_turn message previous in
    let end = create_all-IsKept reader calls w [] turn "" (λ k. refl) in
    let bounded = new_turn-IsBounded reader (map logged calls) (w, []) message previous key limit in
    let state = create_all reader (map logged calls) (w, []) turn in
    let same = same_limit reader turn state.1 key.value end.1 end.2 in
    let few = bounded (same ∙ h) in omega (arith, few, end.0 key)
