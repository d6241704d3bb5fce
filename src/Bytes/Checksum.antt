-- ===== src/Bytes/Checksum.antt =====
-- The range of `recorder_crc32`, and of two of its values joined by `^`.
use recorder.Common.{ℕ, ◌≡◌, refl, arith, List, [], ◌∷◌, bit_xor}
use recorder.Common.Bits.{bit_xor-lt}
use recorder.Bytes.{IsU32, recorder_crc32}

pub recorder_crc32-IsU32 : (buf : List ℕ) → IsU32 (recorder_crc32 buf)
unfolding recorder_crc32
recorder_crc32-IsU32 buf = omega arith

pub crc_xor-IsU32 : (a b : ℕ) → IsU32 a → IsU32 b → IsU32 (bit_xor a b)
crc_xor-IsU32 a b ha hb = bit_xor-lt 32 a b ha hb

-- the check value of this CRC, on "123456789"
check_value :
    recorder_crc32 (b'1' ∷ b'2' ∷ b'3' ∷ b'4' ∷ b'5' ∷ b'6' ∷ b'7' ∷ b'8' ∷ b'9' ∷ []) ≡ 0xcbf43926
unfolding recorder_crc32
check_value = refl
