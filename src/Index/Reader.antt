-- ===== src/Index/Reader.antt =====
-- src/index.c: reading an index: `index_open_read` with `index_validate_segment`, single records and
-- the bisections. The index file is the list of its bytes; `segment` is what
-- `segment_read_path_header` finds in the segment file: its header, where the frames start and the
-- size of the file, or nothing.
pub mod Contiguous
pub mod Opened
pub mod Search
pub mod Find
use recorder.Common.{
  ℕ, zero, suc, ◌+◌, ◌-◌, ◌*◌, ◌/◌, ◌%◌, ◌^◌, Bool, true, false, ◌&&◌, ◌||◌, not, Option, none,
  some,
}
use recorder.Common.{List, [], ◌∷◌, length, take, drop, bytes_eq, ltb, leb, ◌==◌, if◌then◌else◌}
use recorder.Common.{Result, ok, err, ◌>>=◌, ◌>>◌, guard, unset, einval, estale, eprotonosupport}
use recorder.Bytes.{read_u32_le, read_u64_le, recorder_crc32}
use recorder.Segment.{SegmentHeader}
use recorder.Index.{
  IndexFrame, index_magic, index_footer_magic, index_version, index_header_size, index_footer_size,
  index_record_size,
}
use recorder.Index.Record.{decode_index_frame}

-- A record that the file does not hold whole is not read.
unfoldable pub index_pread_frame : List ℕ → ℕ → Option IndexFrame
index_pread_frame file index =
    let offset = index_header_size + index * index_record_size in
    if leb (offset + index_record_size) (length file)
    then some (decode_index_frame (take index_record_size (drop offset file)))
    else none

-- `a - b` of two `uint64_t`
abbrev pub sub64 : ℕ → ℕ → ℕ
sub64 a b = (a + 2 ^ 64 - b) % 2 ^ 64

-- the loop over the records from `i` on, `n` of them; the result is `expected_end`
unfoldable pub validate_frames : List ℕ → ℕ → ℕ → ℕ → ℕ → Option ℕ
validate_frames file segment_size zero i expected_end = some expected_end
validate_frames file segment_size (suc n) i expected_end = elim (index_pread_frame file i) [
  | none ↦ none
  | some frame ↦
      let rest =
        validate_frames file segment_size n (suc i) ((expected_end + frame.frame_len) % 2 ^ 64) in
      if ltb frame.frame_len 20
        || (not (frame.file_offset == expected_end)
            || ltb (sub64 segment_size expected_end) frame.frame_len)
      then none
      else rest
]

unfoldable pub index_validate_segment :
    List ℕ → ℕ → ℕ → ℕ → Bool → ℕ → Option (SegmentHeader × ℕ × ℕ) → Result (Unit {0})
index_validate_segment file count seq flags has_footer committed_end none = err einval
index_validate_segment file count seq flags has_footer committed_end
      (some (header, data_offset, segment_size)) =
    if not (header.segment_seq == seq) || not (header.flags == flags)
    then err einval
    else elim (validate_frames file segment_size count 0 data_offset) [
      | none ↦ err einval
      | some expected_end ↦
          if (has_footer && not (committed_end == segment_size))
            || (not has_footer && not (expected_end == segment_size))
          then err estale
          else ok tt
    ]

-- how many records the file holds: by its footer if it has one, by its size otherwise; and the
-- footer's end of the segment
unfoldable pub index_count : List ℕ → Result (ℕ × (Bool × ℕ))
index_count file =
    let size = length file in
    let footer = drop (size - index_footer_size) file in
    let closed_size = size - index_header_size - index_footer_size in
    let open_size = size - index_header_size in
    if leb (index_header_size + index_footer_size) size
      && bytes_eq (take 8 footer) index_footer_magic
    then (if not (read_u64_le (drop 8 footer) == closed_size / index_record_size)
          || not (closed_size % index_record_size == 0)
        then err eprotonosupport
        else (if recorder_crc32 (take (size - index_footer_size) file)
              == read_u32_le (drop 24 footer)
            then ok (read_u64_le (drop 8 footer), (true, read_u64_le (drop 16 footer)))
            else err einval))
    else (if open_size % index_record_size == 0
        then ok (open_size / index_record_size, (false, 0))
        else err einval)

-- the number of records of an index that fits its segment
unfoldable pub index_open_read : List ℕ → Option (SegmentHeader × ℕ × ℕ) → Result ℕ
index_open_read file segment = do
  guard (leb index_header_size (length file)) unset
  guard (bytes_eq (take 8 file) index_magic) einval
  guard (read_u32_le (drop 8 file) == index_version) eprotonosupport
  (count, (has_footer, committed_end)) ← index_count file
  index_validate_segment file count (read_u64_le (drop 12 file)) (read_u32_le (drop 20 file))
      has_footer committed_end segment
  ok count

-- `while (lo < hi)`: the first index from which on `field` is not below `target`, if it is sorted.
-- `none` is a record that could not be read.
unfoldable pub bisect : List ℕ → (IndexFrame → ℕ) → ℕ → ℕ → ℕ → ℕ → Option ℕ
bisect file field target zero lo hi = if ltb lo hi then none else some lo
bisect file field target (suc fuel) lo hi =
    let mid = lo + (hi - lo) / 2 in
    let upper = bisect file field target fuel (mid + 1) hi in
    let lower = bisect file field target fuel lo mid in
    if ltb lo hi
    then elim (index_pread_frame file mid) [
      | none ↦ none
      | some frame ↦ if ltb (field frame) target then upper else lower
    ]
    else some lo

-- 0 with the frame and its index, 1, or -1
pub data Found : Type 0 where
  found : IndexFrame → ℕ → Found
  no_match unusable : Found

-- the record at the place the bisection ended at
unfoldable pub frame_from : List ℕ → ℕ → Option ℕ → Found
frame_from file count none = unusable
frame_from file count (some lo) =
    if ltb lo count
    then elim (index_pread_frame file lo) [ none ↦ unusable | some frame ↦ found frame lo ]
    else no_match

module _ (file : List ℕ) (segment : Option (SegmentHeader × ℕ × ℕ)) where
  -- the two searches by time, which differ in the field
  unfoldable pub find_frame : (IndexFrame → ℕ) → ℕ → Found
  find_frame field usec = elim (index_open_read file segment) [
    | err e ↦ unusable
    | ok count ↦ frame_from file count (bisect file field usec count 0 count)
  ]

  abbrev pub index_find_realtime_frame : ℕ → Found
  index_find_realtime_frame usec = find_frame (λ f. f.max_realtime_ts) usec

  abbrev pub index_find_monotonic_frame : ℕ → Found
  index_find_monotonic_frame usec = find_frame (λ f. f.max_monotonic_ts) usec

  -- A frame that starts elsewhere is no match: the return value is -1 then too.
  unfoldable pub index_find_offset_frame : ℕ → Found
  index_find_offset_frame file_offset = elim (index_open_read file segment) [
    | err e ↦ unusable
    | ok count ↦ elim (bisect file (λ f. f.file_offset) file_offset count 0 count) [
      | none ↦ unusable
      | some lo ↦ elim (index_pread_frame file lo) [
        | none ↦ unusable
        | some frame ↦
            if ltb lo count && (frame.file_offset == file_offset) then found frame lo else unusable
      ]
    ]
  ]
