-- ===== src/Agents/DuplicateGuard/Keys.antt =====
-- The results that a turn keeps, by the identity of the movement.
use tresqu_api.Common.{
  ◌≡◌, refl, Bool, true, false, ◌&&◌, Option, none, some, List, [], ◌∷◌, ◌++◌, String, str_eq,
  str_eq_iff, ap, arith, ◌==◌, Bool-cases, inl, inr,
}
use tresqu_api.Common.Int.{pos_part, neg_part, eq_of_parts}
use tresqu_api.Agents.DuplicateGuard.{
  Key, is_same_key, same_words, same_day, results_of, add_result,
}

same_string : (a b : String) → str_eq a b ≡ true → a ≡ b
same_string a b h = (str_eq_iff a b).0 h

both : (a b : Bool) → (a && b) ≡ true → (a ≡ true) × (b ≡ true)
both true true h = (refl, refl)
both true false h = cc
both false b h = cc

same_words-eq : (xs ys : List String) → same_words xs ys ≡ true → xs ≡ ys
unfolding same_words
same_words-eq [] [] h = refl
same_words-eq [] (y ∷ ys) h = cc
same_words-eq (x ∷ xs) [] h = cc
same_words-eq (x ∷ xs) (y ∷ ys) h =
    let (e, t) = both (str_eq x y) (same_words xs ys) h in
    let head = same_string x y e in let tail = same_words-eq xs ys t in ground arith

same_day-eq : (a b : Option String) → same_day a b ≡ true → a ≡ b
unfolding same_day
same_day-eq none none h = refl
same_day-eq none (some b) h = cc
same_day-eq (some a) none h = cc
same_day-eq (some a) (some b) h = ap some (same_string a b h)

pub is_same_key-eq : (a b : Key) → is_same_key a b ≡ true → a ≡ b
unfolding is_same_key
is_same_key-eq a b h =
    let e1 : str_eq a.kind b.kind ≡ true = ground arith in
    let e2 : (pos_part a.value == pos_part b.value && neg_part a.value == neg_part b.value) ≡ true =
      ground arith in
    let e3 : str_eq a.currency b.currency ≡ true = ground arith in
    let e4 : same_words a.words b.words ≡ true = ground arith in
    let e5 : same_day a.day b.day ≡ true = ground arith in
    let kind_eq = same_string a.kind b.kind e1 in
    let value_eq = eq_of_parts a.value b.value (ground arith) in
    let currency_eq = same_string a.currency b.currency e3 in
    let note_eq = same_words-eq a.words b.words e4 in
    let day_eq = same_day-eq a.day b.day e5 in ground arith

string_refl : (a : String) → str_eq a a ≡ true
string_refl a = (str_eq_iff a a).1 refl

words_refl : (xs : List String) → same_words xs xs ≡ true
unfolding same_words
words_refl [] = refl
words_refl (x ∷ xs) = rw (string_refl x, words_refl xs) refl

day_refl : (a : Option String) → same_day a a ≡ true
unfolding same_day
day_refl none = refl
day_refl (some a) = string_refl a

is_same_key_refl : (a : Key) → is_same_key a a ≡ true
unfolding is_same_key
is_same_key_refl a =
    rw (string_refl a.kind, string_refl a.currency, words_refl a.words, day_refl a.day)
      (ground arith)

pub results_of-add :
    (key : Key) (result : String) (rows : List (Key × List String))
    → results_of key (add_result key result rows) ≡ results_of key rows ++ result ∷ []
unfolding results_of add_result
results_of-add key result [] = rw (is_same_key_refl key) refl
results_of-add key result ((k, rs) ∷ rest) = elim (Bool-cases (is_same_key k key)) [
  | inl t ↦ rw (t, add_result, results_of, t) refl
  | inr f ↦ rw (f, add_result, results_of, f) (results_of-add key result rest)
]

pub results_of-add_ne :
    (key other : Key) (result : String) (rows : List (Key × List String))
    → is_same_key key other ≡ false
    → results_of other (add_result key result rows) ≡ results_of other rows
unfolding results_of add_result
results_of-add_ne key other result [] h = rw h refl
results_of-add_ne key other result ((k, rs) ∷ rest) h = elim (Bool-cases (is_same_key k key)) [
  | inl t ↦
      let same : is_same_key k other ≡ false = rw (is_same_key-eq k key t) h in
      rw (t, add_result, results_of, same) refl
  | inr f ↦ rw (f, add_result, results_of) (rw (results_of-add_ne key other result rest h) refl)
]
