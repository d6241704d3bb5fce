-- ===== src/Segment.antt =====
-- src/segment.h and the constants of src/segment.c: the records of a segment file.
pub mod Crypto
pub mod Header
pub mod Frame
pub mod Footer
pub mod Scan
pub mod Reader
use recorder.Common.{ℕ, ◌==◌, bit_and, Bool, not, List, [], ◌∷◌}

abbrev pub segment_magic : List ℕ
segment_magic = b'R' ∷ b'E' ∷ b'C' ∷ b'S' ∷ b'E' ∷ b'G' ∷ b'0' ∷ b'1' ∷ []

abbrev pub footer_magic : List ℕ
footer_magic = b'R' ∷ b'E' ∷ b'C' ∷ b'E' ∷ b'N' ∷ b'D' ∷ b'0' ∷ b'1' ∷ []

abbrev pub extension_magic : List ℕ
extension_magic = b'R' ∷ b'E' ∷ b'C' ∷ b'E' ∷ b'N' ∷ b'C' ∷ b'0' ∷ b'1' ∷ []

abbrev pub segment_version : ℕ
segment_version = 1

-- SEGMENT_HEADER_FIXED_SIZE: 8 + 4 + 4 + 4 + 8 + 4 + 32 + 64 + 8 + 8 + 4 + 4
abbrev pub header_fixed_size : ℕ
header_fixed_size = 152

abbrev pub frame_header_size : ℕ
frame_header_size = 16

abbrev pub extension_fixed_size : ℕ
extension_fixed_size = 32

abbrev pub nonce_prefix_size : ℕ
nonce_prefix_size = 4

abbrev pub gcm_tag_size : ℕ
gcm_tag_size = 16

-- SEGMENT_FOOTER_BODY_SIZE + SEGMENT_FOOTER_TRAILER_SIZE
abbrev pub footer_size : ℕ
footer_size = 48

abbrev pub boot_id_size : ℕ
boot_id_size = 32

abbrev pub tz_size : ℕ
tz_size = 64

abbrev pub uint32_max : ℕ
uint32_max = 0xffffffff

abbrev pub uint64_max : ℕ
uint64_max = 0xffffffffffffffff

-- `(flags & bit) != 0`
abbrev pub has_flag : ℕ → ℕ → Bool
has_flag flags bit = not (bit_and flags bit == 0)

abbrev pub flag_has_static_dict : ℕ
flag_has_static_dict = 1

abbrev pub flag_compact_entries : ℕ
flag_compact_entries = 4

abbrev pub flag_encrypted : ℕ
flag_encrypted = 8

abbrev pub frame_flag_zstd : ℕ
frame_flag_zstd = 1

abbrev pub footer_flag_has_signature : ℕ
footer_flag_has_signature = 1

-- `boot_id` holds the 33 bytes of the array, `timezone` its 64.
pub record SegmentHeader : Type 0 where
  pub flags : ℕ
  pub segment_seq : ℕ
  pub boot_seq : ℕ
  pub boot_id : List ℕ
  pub timezone : List ℕ
  pub first_realtime_ts : ℕ
  pub first_monotonic_ts : ℕ
  pub dict_len : ℕ

pub record SegmentFrameInfo : Type 0 where
  pub flags : ℕ
  pub stored_len : ℕ
  pub uncompressed_len : ℕ
  pub file_offset : ℕ
  pub frame_len : ℕ

-- The signature fields, which no code fills in, are left out.
pub record SegmentFooter : Type 0 where
  pub footer_flags : ℕ
  pub rotation_reason : ℕ
  pub entry_count : ℕ
  pub last_realtime_ts : ℕ
  pub last_monotonic_ts : ℕ
  pub present : Bool

pub record SegmentEncryptionInfo : Type 0 where
  pub wrapped_dek : List ℕ
  pub wrapped_dek_len : ℕ
  pub nonce_prefix : List ℕ
