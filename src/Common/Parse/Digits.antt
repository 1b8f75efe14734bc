-- ===== src/Common/Parse/Digits.antt =====
-- `int(str(n))` is `n`.
use Prim.Native.Char.{Char, code}
use Prim.Native.String
use text.Mathlib.TextLemmas.{nil-append, cons-append}
use tresqu_api.Common.{
  ℕ, zero, suc, ◌+◌, ◌*◌, ◌/◌, ◌%◌, ◌<◌, ◌≡◌, refl, ap, ◌∙◌, Bool, true, false, ◌&&◌, some,
  some_inj, String, strip, ◌==◌, ◌>>=◌, arith, Bool-cases, Option-cases, inl, inr,
}
use tresqu_api.Common.Text.{is_space, lstrip, rstrip}
use tresqu_api.Common.Show.{digit, show_digits, show_ℕ}
use tresqu_api.Common.Int.{pos}
use tresqu_api.Common.Parse.{digit_value, scan, finished, unsigned, signed, parse_int}

scan-append :
    (acc : ℕ) (after : Bool) (s t : String)
    → scan acc after (String.◌++◌ s t) ≡ (scan acc after s >>= (λ r. scan r.0 r.1 t))
unfolding scan
scan-append acc after String.[] t = ap (scan acc after) (nil-append t)
scan-append acc after (String.◌∷◌ c s) t =
    rw (cons-append c s t) (elim (Option-cases (digit_value c)) [
      | inr (d, e) ↦ rw (e, scan) (scan-append (acc * 10 + d) true s t)
      | inl n ↦ elim (Bool-cases (code c == b'_' && after)) [
        | inl u ↦ rw (n, scan, u) (scan-append acc false s t)
        | inr f ↦ rw (n, scan, f) refl
      ]
    ])

digit_value-char_at : (n : ℕ) → n < 10 → digit_value (String.char_at "0123456789" n) ≡ some n
unfolding digit_value
digit_value-char_at zero h = refl
digit_value-char_at (suc zero) h = refl
digit_value-char_at (suc (suc zero)) h = refl
digit_value-char_at (suc (suc (suc zero))) h = refl
digit_value-char_at (suc (suc (suc (suc zero)))) h = refl
digit_value-char_at (suc (suc (suc (suc (suc zero))))) h = refl
digit_value-char_at (suc (suc (suc (suc (suc (suc zero)))))) h = refl
digit_value-char_at (suc (suc (suc (suc (suc (suc (suc zero))))))) h = refl
digit_value-char_at (suc (suc (suc (suc (suc (suc (suc (suc zero)))))))) h = refl
digit_value-char_at (suc (suc (suc (suc (suc (suc (suc (suc (suc zero))))))))) h = refl
digit_value-char_at (suc (suc (suc (suc (suc (suc (suc (suc (suc (suc n)))))))))) h =
    let bad : ⊥ = omega arith in absurd bad

scan-digit :
    (acc n : ℕ) (after : Bool) → n < 10 → scan acc after (digit n) ≡ some (acc * 10 + n, true)
unfolding scan digit
scan-digit acc n after h = rw (digit_value-char_at n h, scan) refl

scan-show_digits : (fuel n : ℕ) → n < fuel → scan 0 false (show_digits fuel n) ≡ some (n, true)
unfolding show_digits
scan-show_digits zero n h = let bad : ⊥ = omega arith in absurd bad
scan-show_digits (suc fuel) n h = elim (Bool-cases (n / 10 == 0)) [
  | inl t ↦
      let small : 0 * 10 + n % 10 ≡ n = ground arith in
      rw (t, show_digits)
        (scan-digit 0 (n % 10) false (omega arith) ∙ ap (λ m. some (m, true)) small)
  | inr f ↦
      let rest = scan-show_digits fuel (n / 10) (ground arith) in
      let whole : n / 10 * 10 + n % 10 ≡ n = omega arith in
      rw (f, show_digits)
        (scan-append 0 false (show_digits fuel (n / 10)) (digit (n % 10))
          ∙ rw rest
              (scan-digit (n / 10) (n % 10) true (omega arith) ∙ ap (λ m. some (m, true)) whole))
]

not_space : (c : Char) (d : ℕ) → digit_value c ≡ some d → is_space c ≡ false
unfolding digit_value is_space
not_space c d h = ground arith

underscore : (c : Char) (after : Bool) → (code c == b'_' && after) ≡ true → is_space c ≡ false
unfolding is_space
underscore c after h = ground arith

-- The first character is no space, and the rest can be read too.
scan_first :
    (acc : ℕ) (after : Bool) (c : Char) (s : String) (r : ℕ × Bool)
    → scan acc after (String.◌∷◌ c s) ≡ some r
    → (is_space c ≡ false) × (acc1 : ℕ) × (after1 : Bool) × (scan acc1 after1 s ≡ some r)
unfolding scan
scan_first acc after c s r h = elim (Option-cases (digit_value c)) [
  | inr (d, e) ↦ (not_space c d e, acc * 10 + d, true, rw (e, scan) at h)
  | inl n ↦ elim (Bool-cases (code c == b'_' && after)) [
    | inl u ↦ (underscore c after u, acc, false, rw (n, scan, u) at h)
    | inr f ↦ let bad = rw (n, scan, f) at h in cc
  ]
]

-- What can be read as digits has no spaces around it.
lstrip_eq :
    (acc : ℕ) (after : Bool) (s : String) (r : ℕ × Bool) → scan acc after s ≡ some r → lstrip s ≡ s
unfolding lstrip
lstrip_eq acc after String.[] r h = refl
lstrip_eq acc after (String.◌∷◌ c s) r h = rw ((scan_first acc after c s r h).0) refl

rstrip_eq :
    (acc : ℕ) (after : Bool) (s : String) (r : ℕ × Bool) → scan acc after s ≡ some r → rstrip s ≡ s
unfolding rstrip
rstrip_eq acc after String.[] r h = refl
rstrip_eq acc after (String.◌∷◌ c s) r h =
    let (space, acc1, after1, rest) = scan_first acc after c s r h in
    rw (space, rstrip_eq acc1 after1 s r rest) refl

digit_no_sign :
    (c : Char) (d : ℕ)
    → digit_value c ≡ some d
    → ((code c == b'-') ≡ false) × ((code c == b'+') ≡ false)
unfolding digit_value
digit_no_sign c d h = ground arith

not_sign :
    (c : Char) (s : String) (r : ℕ × Bool)
    → scan 0 false (String.◌∷◌ c s) ≡ some r
    → ((code c == b'-') ≡ false) × ((code c == b'+') ≡ false)
unfolding scan
not_sign c s r h = elim (Option-cases (digit_value c)) [
  | inr (d, e) ↦ digit_no_sign c d e
  | inl n ↦ elim (Bool-cases (code c == b'_' && false)) [
    | inl u ↦ let bad : false ≡ true = ground arith in cc
    | inr f ↦ let bad = rw (n, scan, f) at h in cc
  ]
]

signed_eq : (s : String) (n : ℕ) → scan 0 false s ≡ some (n, true) → signed s ≡ some (pos n)
unfolding signed unsigned finished scan
signed_eq String.[] n h = let bad : false ≡ true = ap (λ p. p.1) (some_inj h) in cc
signed_eq (String.◌∷◌ c s) n h =
    let (minus, plus) = not_sign c s (n, true) h in rw (minus, plus, h) refl

-- `int(str(n)) == n`
pub parse_int-show_ℕ : (n : ℕ) → parse_int (show_ℕ n) ≡ some (pos n)
unfolding parse_int strip show_ℕ
parse_int-show_ℕ n =
    let e = scan-show_digits (n + 1) n (omega arith) in
    rw
      (
        rstrip_eq 0 false (show_digits (n + 1) n) (n, true) e,
        lstrip_eq 0 false (show_digits (n + 1) n) (n, true) e,
      )
      (signed_eq (show_digits (n + 1) n) n e)
