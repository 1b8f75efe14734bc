-- ===== src/Common/Show.antt =====
-- Python's `str(n)` for a natural number.
use Prim.Native.Nat.{ℕ, zero, suc, ◌+◌, ◌/◌, ◌%◌}
use Prim.Native.String
use Prim.Native.String.{String}
use tresqu_api.Common.Tests.{◌==◌, if◌then◌else◌}

unfoldable pub digit : ℕ → String
digit n = String.◌∷◌ (String.char_at "0123456789" n) ""

-- The digits of `n`, most significant first; `n + 1` rounds are enough, since `n / 10 < n`.
unfoldable pub show_digits : ℕ → ℕ → String
show_digits zero n = ""
show_digits (suc fuel) n =
    let higher = show_digits fuel (n / 10) in
    if n / 10 == 0 then digit (n % 10) else String.◌++◌ higher (digit (n % 10))

unfoldable pub show_ℕ : ℕ → String
unfolding show_digits digit
show_ℕ n = show_digits (n + 1) n
