-- ===== src/Common/Text.antt =====
-- C strings as lists of bytes, and the integers of C that may be negative.
use Prim.Native.Nat.{ℕ, zero, suc, ◌+◌, ◌/◌, ◌%◌}
use Prim.Native.Char.{code}
use Prim.Native.String.{String}
use mathlib.Core.Bool.{Bool, true, false}
use mathlib.Core.List.{List, [], ◌∷◌}

-- `negsuc n` is -1 - n.
pub data ℤ : Type 0 where
  pos : ℕ → ℤ
  negsuc : ℕ → ℤ

-- `x < 0`
abbrev pub is_negative : ℤ → Bool
is_negative (pos n) = false
is_negative (negsuc n) = true

-- the bytes of an ASCII literal
abbrev pub codes : String → List ℕ
codes String.[] = []
codes (String.◌∷◌ c s) = code c ∷ codes s

-- `%u` with at most `places` digits, in front of the text behind it
unfoldable pub decimal_digits : ℕ → ℕ → List ℕ → List ℕ
decimal_digits zero n after = after
decimal_digits (suc places) zero after = after
decimal_digits (suc places) (suc n) after =
    decimal_digits places (suc n / 10) ((b'0' + suc n % 10) ∷ after)

-- the digits of a `uint64_t`, of which there are 20 at most
unfoldable pub decimal : ℕ → List ℕ
decimal zero = b'0' ∷ []
decimal (suc n) = decimal_digits 20 (suc n) []
