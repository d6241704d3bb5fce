-- ===== src/Segment/Footer/RoundTrip.antt =====
-- src/segment.c: a written footer as the scan meets it.
use recorder.Common.{ℕ, ◌≡◌, refl, arith, some, true}
use recorder.Common.{List, ◌++◌, length, take, drop, ==_refl, leb, le→leb}
use recorder.Bytes.{IsU32, IsU64, read_u32_le, read_u64_le, write_u32_le, recorder_crc32}
use recorder.Bytes.Words.{read_u32_le-write_u32_le, read_u64_le-write_u64_le}
use recorder.Bytes.Checksum.{recorder_crc32-IsU32}
use recorder.Segment.{SegmentFooter, footer_magic, segment_version}
use recorder.Segment.Footer.{encode_footer_body, encode_footer, footer_at}

-- The numbers of a footer fit their C types.
pub record IsFooter (f : SegmentFooter) : Type 0 where
  pub footer_flags : IsU32 f.footer_flags
  pub rotation_reason : IsU32 f.rotation_reason
  pub entry_count : IsU64 f.entry_count
  pub last_realtime_ts : IsU64 f.last_realtime_ts
  pub last_monotonic_ts : IsU64 f.last_monotonic_ts

module _ (f : SegmentFooter) (crc : ℕ) (rest : List ℕ) where
  abbrev bytes : List ℕ
  bytes = encode_footer_body f crc ++ rest

  read_footer_flags : IsU32 f.footer_flags → read_u32_le bytes ≡ f.footer_flags
  unfolding encode_footer_body
  read_footer_flags h = read_u32_le-write_u32_le f.footer_flags (drop 4 bytes) h

  read_rotation_reason : IsU32 f.rotation_reason → read_u32_le (drop 4 bytes) ≡ f.rotation_reason
  unfolding encode_footer_body
  read_rotation_reason h = read_u32_le-write_u32_le f.rotation_reason (drop 8 bytes) h

  read_entry_count : IsU64 f.entry_count → read_u64_le (drop 8 bytes) ≡ f.entry_count
  unfolding encode_footer_body
  read_entry_count h = read_u64_le-write_u64_le f.entry_count (drop 16 bytes) h

  read_realtime : IsU64 f.last_realtime_ts → read_u64_le (drop 16 bytes) ≡ f.last_realtime_ts
  unfolding encode_footer_body
  read_realtime h = read_u64_le-write_u64_le f.last_realtime_ts (drop 24 bytes) h

  read_monotonic : IsU64 f.last_monotonic_ts → read_u64_le (drop 24 bytes) ≡ f.last_monotonic_ts
  unfolding encode_footer_body
  read_monotonic h = read_u64_le-write_u64_le f.last_monotonic_ts (drop 32 bytes) h

  read_crc : IsU32 crc → read_u32_le (drop 32 bytes) ≡ crc
  unfolding encode_footer_body
  read_crc h = read_u32_le-write_u32_le crc (drop 36 bytes) h

  read_version : read_u32_le (drop 36 bytes) ≡ segment_version
  unfolding encode_footer_body
  read_version = read_u32_le-write_u32_le segment_version (drop 40 bytes) (omega arith)

  read_magic : take 8 (drop 40 bytes) ≡ footer_magic
  unfolding encode_footer_body
  read_magic = refl

  zeroed : take 32 bytes ++ (write_u32_le 0 ++ take 12 (drop 36 bytes)) ≡ encode_footer_body f 0
  unfolding encode_footer_body
  zeroed = refl

  long_enough : leb 48 (length bytes) ≡ true
  unfolding encode_footer_body
  long_enough = le→leb 48 (length bytes) (omega arith)

-- The scan recognises a footer that was written with numbers that fit their fields, and reads its
-- numbers back, whatever follows it.
pub footer_at-encode_footer :
    (f : SegmentFooter) (rest : List ℕ)
    → IsFooter f
    → footer_at (encode_footer f ++ rest) ≡ some (record f { present = true })
unfolding footer_at encode_footer
footer_at-encode_footer f rest v =
    let crc = recorder_crc32 (encode_footer_body f 0) in
    rw
      (
        long_enough f crc rest,
        read_magic f crc rest,
        read_version f crc rest,
        read_crc f crc rest (recorder_crc32-IsU32 _),
        zeroed f crc rest,
        ==_refl crc,
        read_footer_flags f crc rest v.footer_flags,
        read_rotation_reason f crc rest v.rotation_reason,
        read_entry_count f crc rest v.entry_count,
        read_realtime f crc rest v.last_realtime_ts,
        read_monotonic f crc rest v.last_monotonic_ts,
      )
      refl

pub length-encode_footer : (f : SegmentFooter) → length (encode_footer f) ≡ 48
unfolding encode_footer encode_footer_body
length-encode_footer f = omega arith
