-- ===== src/Bytes/Words.antt =====
-- The words that `helper.c` writes and reads back.
use recorder.Common.{
  ℕ, ◌+◌, ◌*◌, ◌/◌, ◌%◌, ◌^◌, ◌<◌, ◌≡◌, refl, ◌∙◌, arith, bit_or, List, ◌∷◌, ◌++◌,
}
use recorder.Common.Bits.{bit_or_fields, bit_and_byte}
use native.Mathlib.Nat.{mod-eq_of_lt}
use recorder.Bytes.{
  shl32, shl64, IsByte, IsU32, IsU64, read_u32_le, read_u64_le, octet, write_u32_le, write_u64_le,
}

pub octet_lem : (v k : ℕ) → octet v k ≡ v / 2 ^ k % 256
unfolding octet
octet_lem v k = omega (arith, bit_and_byte (v / 2 ^ k))

-- `acc | (b << k)` where `acc` has `k` bits.
join32 : (k acc b : ℕ) → acc < 2 ^ k → b * 2 ^ k < 2 ^ 32 → bit_or acc (shl32 b k) ≡ acc + b * 2 ^ k
join32 k acc b ha hb = rw (mod-eq_of_lt hb) (bit_or_fields k acc b ha)

join64 : (k acc b : ℕ) → acc < 2 ^ k → b * 2 ^ k < 2 ^ 64 → bit_or acc (shl64 b k) ≡ acc + b * 2 ^ k
join64 k acc b ha hb = rw (mod-eq_of_lt hb) (bit_or_fields k acc b ha)

-- The words as sums, for bytes.
read_u32_le_sum :
    (a b c d : ℕ) (rest : List ℕ)
    → IsByte a
    → IsByte b
    → IsByte c
    → IsByte d
    → read_u32_le (a ∷ b ∷ c ∷ d ∷ rest) ≡ a + b * 2 ^ 8 + c * 2 ^ 16 + d * 2 ^ 24
unfolding read_u32_le
read_u32_le_sum a b c d rest ha hb hc hd =
    rw
      (
        join32 8 a b (omega arith) (omega arith),
        join32 16 (a + b * 2 ^ 8) c (omega arith) (omega arith),
        join32 24 (a + b * 2 ^ 8 + c * 2 ^ 16) d (omega arith) (omega arith),
      )
      refl

abbrev low32 : ℕ → ℕ → ℕ → ℕ → ℕ
low32 a b c d = a + b * 2 ^ 8 + c * 2 ^ 16 + d * 2 ^ 24

read_u64_le_sum :
    (a b c d e f g h : ℕ) (rest : List ℕ)
    → IsByte a
    → IsByte b
    → IsByte c
    → IsByte d
    → IsByte e
    → IsByte f
    → IsByte g
    → IsByte h
    → read_u64_le (a ∷ b ∷ c ∷ d ∷ e ∷ f ∷ g ∷ h ∷ rest)
      ≡ low32 a b c d + e * 2 ^ 32 + f * 2 ^ 40 + g * 2 ^ 48 + h * 2 ^ 56
unfolding read_u64_le
read_u64_le_sum a b c d e f g h rest ha hb hc hd he hf hg hh =
    rw
      (
        join64 8 a b (omega arith) (omega arith),
        join64 16 (a + b * 2 ^ 8) c (omega arith) (omega arith),
        join64 24 (a + b * 2 ^ 8 + c * 2 ^ 16) d (omega arith) (omega arith),
        join64 32 (low32 a b c d) e (omega arith) (omega arith),
        join64 40 (low32 a b c d + e * 2 ^ 32) f (omega arith) (omega arith),
        join64 48 (low32 a b c d + e * 2 ^ 32 + f * 2 ^ 40) g (omega arith) (omega arith),
        join64 56 (low32 a b c d + e * 2 ^ 32 + f * 2 ^ 40 + g * 2 ^ 48) h (omega arith)
            (omega arith),
      )
      refl

octet-IsByte : (v k : ℕ) → IsByte (octet v k)
octet-IsByte v k = omega (arith, octet_lem v k)

-- Reading back what `write_u32_le` wrote gives the same number, for every `uint32_t` and whatever
-- bytes follow it.
pub read_u32_le-write_u32_le :
    (v : ℕ) (rest : List ℕ) → IsU32 v → read_u32_le (write_u32_le v ++ rest) ≡ v
read_u32_le-write_u32_le v rest h =
    read_u32_le_sum (octet v 0) (octet v 8) (octet v 16) (octet v 24) rest (octet-IsByte v 0)
      (octet-IsByte v 8) (octet-IsByte v 16) (octet-IsByte v 24)
    ∙ omega (arith, octet_lem v 0, octet_lem v 8, octet_lem v 16, octet_lem v 24)

-- Reading back what `write_u64_le` wrote gives the same number, for every `uint64_t` and whatever
-- bytes follow it.
pub read_u64_le-write_u64_le :
    (v : ℕ) (rest : List ℕ) → IsU64 v → read_u64_le (write_u64_le v ++ rest) ≡ v
read_u64_le-write_u64_le v rest h =
    read_u64_le_sum (octet v 0) (octet v 8) (octet v 16) (octet v 24) (octet v 32) (octet v 40)
      (octet v 48) (octet v 56) rest (octet-IsByte v 0) (octet-IsByte v 8) (octet-IsByte v 16)
      (octet-IsByte v 24) (octet-IsByte v 32) (octet-IsByte v 40) (octet-IsByte v 48)
      (octet-IsByte v 56)
    ∙ omega (
      arith,
      octet_lem v 0,
      octet_lem v 8,
      octet_lem v 16,
      octet_lem v 24,
      octet_lem v 32,
      octet_lem v 40,
      octet_lem v 48,
      octet_lem v 56,
    )
