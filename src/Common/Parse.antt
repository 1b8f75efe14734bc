-- ===== src/Common/Parse.antt =====
-- Python's `int(text)` over ASCII.
pub mod Digits
use Prim.Native.Char.{Char, code}
use Prim.Native.String
use tresqu_api.Common.{
  ℕ, ◌+◌, ◌-◌, ◌*◌, Bool, true, false, ◌&&◌, Option, none, some, String, strip, ◌==◌, leb, ◌>>=◌,
  if◌then◌else◌,
}
use tresqu_api.Common.Int.{ℤ, pos, ◌-ℤ◌}

pub digit_value : Char → Option ℕ
digit_value c = if leb b'0' (code c) && leb (code c) b'9' then some (code c - b'0') else none

-- The digits read so far, and whether the last character was one; an underscore may stand between two
-- digits.
pub scan : ℕ → Bool → String → Option (ℕ × Bool)
scan acc after String.[] = some (acc, after)
scan acc after (String.◌∷◌ c s) = elim (digit_value c) [
  | some d ↦ scan (acc * 10 + d) true s
  | none ↦ elim (code c == b'_' && after) [ true ↦ scan acc false s | false ↦ none ]
]

pub finished : ℕ × Bool → Option ℕ
finished (n, true) = some n
finished (n, false) = none

pub unsigned : String → Option ℕ
unsigned s = scan 0 false s >>= finished

pub signed : String → Option ℤ
signed String.[] = none
signed (String.◌∷◌ c s) =
    if code c == b'-'
    then unsigned s >>= (λ n. some (pos 0 -ℤ pos n))
    else if code c == b'+'
    then unsigned s >>= (λ n. some (pos n))
    else unsigned (String.◌∷◌ c s) >>= (λ n. some (pos n))

-- `ValueError` is `none`.
unfoldable pub parse_int : String → Option ℤ
unfolding signed
parse_int s = signed (strip s)
