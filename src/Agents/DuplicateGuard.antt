-- ===== src/Agents/DuplicateGuard.antt =====
-- agents/duplicate_guard.py: no movement is recorded twice in a turn of the agent. The detectors that
-- read the user's texts, the normalisation of a note and `str` of a Decimal are parameters. The lock makes one call one step.
pub mod Keys
pub mod Bounded
pub mod Made
use Prim.Native.String
use text.Mathlib.Text.{starts_with}
use tresqu_api.Common.{
  ℕ, ◌+◌, max, Bool, true, false, not, ◌&&◌, ◌||◌, Option, none, some, List, [], ◌∷◌, ◌++◌, String,
  upper, prefix, str_eq, leb, ◌==◌, length, if◌then◌else◌,
}
use tresqu_api.Common.Int.{ℤ, pos_part, neg_part}

pub record Reader : Type 0 where
  pub asks_for_repetition : String → Bool
  pub amount_mentions : String → ℤ → ℕ
  pub note_key : String → List String
  pub show_value : ℤ → String

-- The identity of a movement. An amount is in units of a fixed power of ten.
pub record Key : Type 0 where
  pub kind : String
  pub value : ℤ
  pub currency : String
  pub words : List String
  pub day : Option String

pub record TurnCreations : Type 0 where
  pub user_message : String
  pub previous_user_message : String
  pub created_results : List (Key × List String)

unfoldable pub new_turn : String → String → TurnCreations
new_turn message previous = record {
  user_message = message;
  previous_user_message = previous;
  created_results = [];
}

pub same_words : List String → List String → Bool
same_words [] [] = true
same_words (x ∷ xs) (y ∷ ys) = str_eq x y && same_words xs ys
same_words _ _ = false

pub same_day : Option String → Option String → Bool
same_day none none = true
same_day (some a) (some b) = str_eq a b
same_day _ _ = false

pub is_same_key : Key → Key → Bool
unfolding same_words same_day
is_same_key a b =
    str_eq a.kind b.kind
    && (pos_part a.value == pos_part b.value && neg_part a.value == neg_part b.value)
    && str_eq a.currency b.currency
    && same_words a.words b.words
    && same_day a.day b.day

-- `self._created.get(key, [])`
pub results_of : Key → List (Key × List String) → List String
results_of key [] = []
results_of key ((k, rs) ∷ rest) = if is_same_key k key then rs else results_of key rest

-- `self._created.setdefault(key, []).append(result)`
pub add_result : Key → String → List (Key × List String) → List (Key × List String)
add_result key result [] = (key, result ∷ []) ∷ []
add_result key result ((k, rs) ∷ rest) =
    if is_same_key k key
    then (k, rs ++ result ∷ []) ∷ rest
    else (k, rs) ∷ add_result key result rest

unfoldable pub limit_for : Reader → TurnCreations → ℤ → Option ℕ
limit_for reader turn amount =
    if reader.asks_for_repetition turn.user_message
      || reader.asks_for_repetition turn.previous_user_message
    then none
    else some (
        max 1 (
          max (reader.amount_mentions turn.user_message amount)
            (reader.amount_mentions turn.previous_user_message amount)))

pub is_full : Option ℕ → List String → Bool
is_full none done = false
is_full (some limit) done = leb limit (length done)

-- The arguments of `create`. `amount` is none where `Decimal(str(amount))` raises.
pub record Creation : Type 0 where
  pub kind : String
  pub amount : Option ℤ
  pub currency : String
  pub text : String
  pub category : String
  pub day : Option String

pub first_nonempty : List String → List String → List String
first_nonempty [] other = other
first_nonempty (w ∷ ws) other = w ∷ ws

unfoldable pub key_of : Reader → Creation → ℤ → Key
key_of reader c value = record {
  kind = c.kind;
  value = value;
  currency = upper c.currency;
  words = first_nonempty (reader.note_key c.text) (reader.note_key c.category);
  day = c.day;
}

first_result : List String → String
first_result [] = ""
first_result (r ∷ rs) = prefix 120 r

label : String → String
label kind = if str_eq kind "expense" then "gasto" else "ingreso"

-- The reply to a creation that is not run.
refusal : Reader → Key → List String → String
unfolding first_result label
refusal reader key done =
    String.◌++◌ "Error: NO registrado. Ya registraste en este turno el mismo " (
      String.◌++◌ (label key.kind) (
        String.◌++◌ " de " (
          String.◌++◌ (reader.show_value key.value) (
            String.◌++◌ " (" (
              String.◌++◌ (first_result done)
                "). Es un solo movimiento: no lo dupliques ni cubras dos fechas posibles. Reporta solo el registro ya hecho.")))))

module _ {ℓ} {W : Type ℓ} where
  -- What follows `do_create()`: a result that is not an error is kept.
  pub kept : Key → TurnCreations → String × W → String × W × TurnCreations
  kept key turn (result, w) =
      if starts_with result "Error"
      then (result, w, turn)
      else (result, w, record turn { created_results = add_result key result turn.created_results })

  pub create : Reader → Creation → (W → String × W) → W → TurnCreations → String × W × TurnCreations
  unfolding refusal
  create reader c do_create w turn = elim c.amount [
    | none ↦ let (result, w1) = do_create w in (result, w1, turn)
    | some value ↦
        let key = key_of reader c value in
        let made = kept key turn (do_create w) in
        if is_full (limit_for reader turn value) (results_of key turn.created_results)
        then (refusal reader key (results_of key turn.created_results), w, turn)
        else made
  ]

  -- The calls of a turn, one after the other.
  pub create_all :
      Reader → List (Creation × (W → String × W)) → W → TurnCreations → W × TurnCreations
  create_all reader [] w turn = (w, turn)
  create_all reader ((c, do_create) ∷ calls) w turn =
      let (result, w1, turn1) = create reader c do_create w turn in create_all reader calls w1 turn1
