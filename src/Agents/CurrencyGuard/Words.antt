-- ===== src/Agents/CurrencyGuard/Words.antt =====
-- What the search for a word in agents/currency_guard.py, `_mentions_token`, finds.
use Prim.Native.Char.{code}
use text.Mathlib.TextEquality.{Char-path}
use tresqu_api.Common.{
  ◌≡◌, ◌≢◌, ◌↔◌, refl, sym, ◌∙◌, ap, inl, inr, Bool, true, false, not, ◌&&◌, String, Bool-cases,
  ==_iff, ◌==◌, str_eq, str_eq_iff, arith,
}
use tresqu_api.Agents.CurrencyGuard.{
  Unicode, is_word_char, match_word, mentions_token, normalize, search_word, starts_in_word,
}

-- One text before another.
abbrev pub join : String → String → String
join String.[] text = text
join (String.◌∷◌ c before) text = String.◌∷◌ c (join before text)

-- Whether a text that stands after a character of a word, or not, ends in one.
abbrev pub ends_in_word : Bool → String → Bool
ends_in_word after String.[] = after
ends_in_word after (String.◌∷◌ c text) = ends_in_word (is_word_char c) text

-- The token stands in the text, and nothing of a word stands next to it.
abbrev pub IsWordOf : Bool → String → String → Type 0
IsWordOf after token text =
    (before : String) × (rest : String) × (text ≡ join before (join token rest))
    × (ends_in_word after before ≡ false)
    × (starts_in_word rest ≡ false)

match_word_sound :
    (token text : String)
    → match_word token text ≡ true
    → (rest : String) × (text ≡ join token rest) × (starts_in_word rest ≡ false)
unfolding match_word
match_word_sound String.[] text h = (text, refl, ground arith)
match_word_sound (String.◌∷◌ t token) String.[] h = cc
match_word_sound (String.◌∷◌ t token) (String.◌∷◌ c text) h =
    let same : (code t == code c) ≡ true = ground arith in
    let (rest, e, end) = match_word_sound token text (ground arith) in
    let e_t = Char-path t c ((==_iff (code t) (code c)).0 same) in
    (rest, ap (String.◌∷◌ c) e ∙ ap (λ a. String.◌∷◌ a (join token rest)) (sym e_t), end)

match_word_complete :
    (token rest : String) → starts_in_word rest ≡ false → match_word token (join token rest) ≡ true
unfolding match_word
match_word_complete String.[] rest h = ap not h
match_word_complete (String.◌∷◌ t token) rest h =
    rw ((==_iff (code t) (code t)).1 refl, match_word_complete token rest h) refl

search_word_sound :
    (after : Bool) (token text : String)
    → search_word after token text ≡ true
    → IsWordOf after token text
unfolding search_word
search_word_sound after token String.[] h =
    let (rest, e, end) = match_word_sound token "" (ground arith) in
    ("", rest, e, ground arith, end)
search_word_sound after token (String.◌∷◌ c text) h =
    elim (Bool-cases (not after && match_word token (String.◌∷◌ c text))) [
      | inl here ↦
          let (rest, e, end) = match_word_sound token (String.◌∷◌ c text) (ground arith) in
          ("", rest, e, ground arith, end)
      | inr later ↦
          let (before, rest, e, start, end) =
            search_word_sound (is_word_char c) token text (ground arith) in
          (String.◌∷◌ c before, rest, ap (String.◌∷◌ c) e, start, end)
    ]

search_here :
    (token text : String) → match_word token text ≡ true → search_word false token text ≡ true
unfolding search_word
search_here token String.[] h = rw h refl
search_here token (String.◌∷◌ c text) h = rw h refl

search_word_complete :
    (after : Bool) (token before rest : String)
    → ends_in_word after before ≡ false
    → starts_in_word rest ≡ false
    → search_word after token (join before (join token rest)) ≡ true
unfolding search_word
search_word_complete after token String.[] rest start end =
    rw start (search_here token (join token rest) (match_word_complete token rest end))
search_word_complete after token (String.◌∷◌ c before) rest start end =
    let later = search_word_complete (is_word_char c) token before rest start end in ground arith

-- A token of letters and digits is found exactly where it stands as a whole word.
pub mentions_token_iff :
    (unicode : Unicode) (text token : String)
    → normalize unicode token ≢ ""
    → unicode.is_alnum (normalize unicode token) ≡ true
    → (mentions_token unicode text token ≡ true) ↔ IsWordOf false (normalize unicode token) text
unfolding mentions_token
mentions_token_iff unicode text token present alnum =
    let nonempty : str_eq (normalize unicode token) "" ≡ false =
      elim (Bool-cases (str_eq (normalize unicode token) "")) [
        | inl same ↦ elim (present ((str_eq_iff _ _).0 same)) [ ]
        | inr distinct ↦ distinct
      ] in
    rw (nonempty, alnum)
      (
        search_word_sound false (normalize unicode token) text,
        λ found.
            let (before, rest, e, start, end) = found in
            rw e (search_word_complete false (normalize unicode token) before rest start end),
      )
