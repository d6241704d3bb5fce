-- ===== src/Bytes.antt =====
-- src/helper.c: little-endian words and the CRC. A byte buffer is a list of numbers below 256, and
-- a pointer into a buffer is the rest of the list from there on.
pub mod Words
pub mod Checksum
use recorder.Common.{ℕ, zero, suc, ◌+◌, ◌-◌, ◌*◌, ◌/◌, ◌%◌, ◌^◌, ◌<◌, bit_and, bit_or, bit_xor}
use recorder.Common.{List, [], ◌∷◌, get_or}

abbrev pub IsByte : ℕ → Type 0
IsByte b = b < 256

abbrev pub IsU32 : ℕ → Type 0
IsU32 v = v < 2 ^ 32

abbrev pub IsU64 : ℕ → Type 0
IsU64 v = v < 2 ^ 64

-- `p[i]`. Each caller has checked that the buffer reaches that far.
abbrev pub at_index : List ℕ → ℕ → ℕ
at_index p i = get_or p i 0

-- `(uint32_t)b << k` and `(uint64_t)b << k`
abbrev pub shl32 : ℕ → ℕ → ℕ
shl32 b k = b * 2 ^ k % 2 ^ 32

abbrev pub shl64 : ℕ → ℕ → ℕ
shl64 b k = b * 2 ^ k % 2 ^ 64

unfoldable pub read_u32_le : List ℕ → ℕ
read_u32_le p =
    bit_or (bit_or (bit_or (at_index p 0) (shl32 (at_index p 1) 8)) (shl32 (at_index p 2) 16))
      (shl32 (at_index p 3) 24)

unfoldable pub read_u64_le : List ℕ → ℕ
read_u64_le p =
    let low16 = bit_or (at_index p 0) (shl64 (at_index p 1) 8) in
    let low32 = bit_or (bit_or low16 (shl64 (at_index p 2) 16)) (shl64 (at_index p 3) 24) in
    let low48 = bit_or (bit_or low32 (shl64 (at_index p 4) 32)) (shl64 (at_index p 5) 40) in
    bit_or (bit_or low48 (shl64 (at_index p 6) 48)) (shl64 (at_index p 7) 56)

-- `(unsigned char)((value >> k) & 0xff)`
unfoldable pub octet : ℕ → ℕ → ℕ
octet v k = bit_and (v / 2 ^ k) 0xff % 256

-- the four bytes that go to `dst`
abbrev pub write_u32_le : ℕ → List ℕ
write_u32_le v = octet v 0 ∷ octet v 8 ∷ octet v 16 ∷ octet v 24 ∷ []

abbrev pub write_u64_le : ℕ → List ℕ
write_u64_le v =
    octet v 0
    ∷ octet v 8
    ∷ octet v 16
    ∷ octet v 24
    ∷ octet v 32
    ∷ octet v 40
    ∷ octet v 48
    ∷ octet v 56
    ∷ []

-- `crc = (crc >> 1) ^ (0xedb88320u & (uint32_t)-(int32_t)(crc & 1u))`, `n` times
crc_bits : ℕ → ℕ → ℕ
crc_bits zero crc = crc
crc_bits (suc n) crc =
    crc_bits n (bit_xor (crc / 2) (bit_and 0xedb88320 ((2 ^ 32 - bit_and crc 1) % 2 ^ 32)))

crc_loop : List ℕ → ℕ → ℕ
crc_loop [] crc = crc
crc_loop (b ∷ bs) crc = crc_loop bs (crc_bits 8 (bit_xor crc b))

-- `~crc` of a `uint32_t`
unfoldable pub recorder_crc32 : List ℕ → ℕ
unfolding crc_loop crc_bits
recorder_crc32 buf = 2 ^ 32 - 1 - crc_loop buf 0xffffffff
