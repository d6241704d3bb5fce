-- ===== src/Index.antt =====
-- src/index.h and the constants of src/index.c: the advisory index of a segment, one record of 83
-- bytes for each frame between a header and, once the segment is closed, a footer.
pub mod Summary
pub mod Record
pub mod Writer
pub mod Reader
use recorder.Common.{ℕ, ◌*◌, ◌%◌, ◌^◌, bit_xor, List, [], ◌∷◌, ◌==◌, if◌then◌else◌}

abbrev pub index_magic : List ℕ
index_magic = b'R' ∷ b'E' ∷ b'C' ∷ b'I' ∷ b'D' ∷ b'X' ∷ b'0' ∷ b'1' ∷ []

abbrev pub index_footer_magic : List ℕ
index_footer_magic = b'R' ∷ b'E' ∷ b'C' ∷ b'I' ∷ b'F' ∷ b'0' ∷ b'0' ∷ b'1' ∷ []

abbrev pub index_version : ℕ
index_version = 1

abbrev pub index_header_size : ℕ
index_header_size = 24

abbrev pub index_footer_size : ℕ
index_footer_size = 28

abbrev pub service_hash_slots : ℕ
service_hash_slots = 4

-- 8 + 4 + 8 + 8 + 8 + 8 + 1 + 4 + 1 + 4 * 8 + 1
abbrev pub index_record_size : ℕ
index_record_size = 83

pub record IndexFrame : Type 0 where
  pub file_offset : ℕ
  pub frame_len : ℕ
  pub min_realtime_ts : ℕ
  pub max_realtime_ts : ℕ
  pub min_monotonic_ts : ℕ
  pub max_monotonic_ts : ℕ
  pub priority : ℕ
  pub entry_count : ℕ
  pub service_filter_kind : ℕ
  pub service_hashes : List ℕ
  pub service_overflow : ℕ

-- `s` is a C string, up to its NUL or without it.
fnv_loop : List ℕ → ℕ → ℕ
fnv_loop [] hash = hash
fnv_loop (ch ∷ s) hash =
    let more = fnv_loop s (bit_xor hash ch * 1099511628211 % 2 ^ 64) in
    if ch == 0 then hash else more

unfoldable pub fnv1a64 : List ℕ → ℕ
unfolding fnv_loop
fnv1a64 s = fnv_loop s 1469598103934665603
