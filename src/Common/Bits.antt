-- ===== src/Common/Bits.antt =====
-- `|` of disjoint fields, `&` with a low mask and the width of `^`, as arithmetic.
use Prim.Native.Nat.{ℕ, zero, suc, ◌+◌, ◌*◌, ◌/◌, ◌%◌, ◌^◌, ◌≤◌, ◌<◌, min, max}
use Prim.Native.Nat.{bit_and, bit_or, bit_xor, digits, bitwise, differ}
use Prim.Native.Nat.{bit_and-bitwise, bit_or-bitwise, bit_xor-bitwise}
use mathlib.Core.Path.{◌≡◌, refl, ap}
use native.Mathlib.Nat.{pow-suc}
use native.Mathlib.Omega.{arith}

-- An operation that the library defines by its binary digits obeys the equation of its lowest digit.
module _ (z : ℕ → ℕ) (f : ℕ → ℕ → ℕ) (op : ℕ → ℕ → ℕ)
    (meaning : (a b : ℕ) → op a b ≡ bitwise z f a b) where
  -- Rounds beyond the first number's change nothing.
  surplus : (few many a b : ℕ) → a ≤ few → few ≤ many → digits z f many a b ≡ digits z f few a b
  surplus zero zero zero b h le = refl
  surplus zero (suc many) zero b h le = refl
  surplus zero many (suc a) b h le = absurd (omega arith)
  surplus (suc few) zero a b h le = absurd (omega arith)
  surplus (suc few) (suc many) zero b h le = refl
  surplus (suc few) (suc many) (suc a) b h le =
      ap (λ t. t * 2 + f (suc a % 2) (b % 2))
        (surplus few many (suc a / 2) (b / 2) (omega arith) (omega arith))

  lowest_digit :
      ((b : ℕ) → z b ≡ z (b / 2) * 2 + f 0 (b % 2))
      → (a b : ℕ) → op a b ≡ op (a / 2) (b / 2) * 2 + f (a % 2) (b % 2)
  lowest_digit start zero b = rw (meaning 0 b, meaning 0 (b / 2)) (start b)
  lowest_digit start (suc a) b =
      let half = suc a / 2 in
      omega (
        arith,
        meaning (suc a) b,
        meaning half (b / 2),
        surplus half a half (b / 2) (omega arith) (omega arith),
      )

bit_or_step : (a b : ℕ) → bit_or a b ≡ bit_or (a / 2) (b / 2) * 2 + max (a % 2) (b % 2)
bit_or_step = lowest_digit (λ y. y) max bit_or bit_or-bitwise (λ b. omega arith)

bit_and_step : (a b : ℕ) → bit_and a b ≡ bit_and (a / 2) (b / 2) * 2 + min (a % 2) (b % 2)
bit_and_step = lowest_digit (λ y. 0) min bit_and bit_and-bitwise (λ b. omega arith)

bit_xor_step : (a b : ℕ) → bit_xor a b ≡ bit_xor (a / 2) (b / 2) * 2 + differ (a % 2) (b % 2)
bit_xor_step = lowest_digit (λ y. y) differ bit_xor bit_xor-bitwise (λ b. omega arith)

-- The low field `r` of the width `k`, and `q` shifted over it.
pub bit_or_fields : (k r q : ℕ) → r < 2 ^ k → bit_or r (q * 2 ^ k) ≡ r + q * 2 ^ k
bit_or_fields zero r q fits = ground (arith, zero-bit_or q)
  where
    zero-bit_or : (b : ℕ) → bit_or 0 b ≡ b
    zero-bit_or b = bit_or-bitwise 0 b
bit_or_fields (suc k) r q fits = ground (
  arith,
  bit_or_step r (q * 2 ^ suc k),
  ap (λ (t : ℕ). q * t) (pow-suc 2 k),
  pow-suc 2 k,
  bit_or_fields k (r / 2) q (omega (arith, pow-suc 2 k)),
)

-- Nothing is in common with 0.
mask_none : (bound a : ℕ) → a < bound → bit_and a 0 ≡ 0
mask_none zero a h = absurd (omega arith)
mask_none (suc bound) zero h = refl
mask_none (suc bound) (suc a) h =
    omega (arith, mask_none bound (suc a / 2) (omega arith), bit_and_step (suc a) 0)

bit_and-one : (a : ℕ) → bit_and a 1 ≡ a % 2
bit_and-one a = omega (arith, bit_and_step a 1, mask_none (suc (a / 2)) (a / 2) (omega arith))

bit_and_fifteen : (a : ℕ) → bit_and a 15 ≡ a % 16
bit_and_fifteen a = omega (
  arith,
  bit_and_step a 15,
  bit_and_step (a / 2) 7,
  bit_and_step (a / 2 / 2) 3,
  bit_and-one (a / 2 / 2 / 2),
)

-- `x & 0xff`
pub bit_and_byte : (a : ℕ) → bit_and a 0xff ≡ a % 256
bit_and_byte a = omega (
  arith,
  bit_and_step a 255,
  bit_and_step (a / 2) 127,
  bit_and_step (a / 2 / 2) 63,
  bit_and_step (a / 2 / 2 / 2) 31,
  bit_and_fifteen (a / 2 / 2 / 2 / 2),
)

-- `^` stays inside the width of its arguments.
xor_digit : (a b : ℕ) → a < 2 → b < 2 → differ a b < 2
xor_digit zero b h k = k
xor_digit (suc a) zero h k = h
xor_digit (suc a) (suc b) h k = xor_digit a b (omega arith) (omega arith)

pub bit_xor-lt : (k a b : ℕ) → a < 2 ^ k → b < 2 ^ k → bit_xor a b < 2 ^ k
bit_xor-lt zero zero zero p q = omega arith
bit_xor-lt zero zero (suc b) p q = absurd (omega arith)
bit_xor-lt zero (suc a) b p q = absurd (omega arith)
bit_xor-lt (suc k) a b p q = omega (
  arith,
  bit_xor_step a b,
  xor_digit (a % 2) (b % 2) (omega arith) (omega arith),
  pow-suc 2 k,
  bit_xor-lt k (a / 2) (b / 2) (omega (arith, pow-suc 2 k)) (omega (arith, pow-suc 2 k)),
)
