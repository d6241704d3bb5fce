-- ===== src/Index/Reader/Opened.antt =====
-- What `index_open_read` has checked of an index that it accepts.
use recorder.Common.{
  ℕ, ◌+◌, ◌^◌, ◌<◌, ◌≤◌, ◌≡◌, refl, sym, ap, ◌∙◌, arith, inl, inr, Bool, ◌||◌, not, Bool-cases,
  Option-cases,
}
use recorder.Common.{some, List, length, take, drop, bytes_eq, leb, ◌==◌}
use recorder.Common.{
  Result, ok, err, ◌>>=◌, ◌>>◌, guard, unset, einval, eprotonosupport, past_bind, past_guard,
  ok-injective,
}
use recorder.Bytes.{read_u32_le, read_u64_le}
use recorder.Segment.{SegmentHeader}
use recorder.Index.{IndexFrame, index_magic}
use recorder.Index.Reader.{index_count, index_open_read, index_validate_segment, validate_frames}
use recorder.Index.Reader.Contiguous.{
  Reads, Placed, validate_frames-Placed, validate_frames-ordered, validate_frames-end,
}

abbrev Segment : Type 0
Segment = SegmentHeader × ℕ × ℕ

validated :
    (file : List ℕ) (count seq flags : ℕ) (has_footer : Bool) (committed : ℕ)
    (header : SegmentHeader) (start size : ℕ)
    → index_validate_segment file count seq flags has_footer committed (some (header, start, size))
      ≡ ok tt
    → (end : ℕ) × (validate_frames file size count 0 start ≡ some end)
unfolding index_validate_segment
validated file count seq flags has_footer committed header start size e =
    elim (Bool-cases (not (header.segment_seq == seq) || not (header.flags == flags))) [
      | inl bad ↦ let wrong = rw bad at e in cc
      | inr good ↦ elim (Option-cases (validate_frames file size count 0 start)) [
        | inl bad ↦ let wrong = rw (good, bad, index_validate_segment) at e in cc
        | inr (end, valid) ↦ (end, valid)
      ]
    ]

past_check :
    {A : Type 0} (m : Result (Unit {0})) (a b : A) → (m >> ok a) ≡ ok b → (m ≡ ok tt) × (a ≡ b)
past_check (err code) a b e = cc
past_check (ok x) a b e = (refl, ok-injective a b e)

pub index_open_read-validated :
    (file : List ℕ) (header : SegmentHeader) (start size count : ℕ)
    → index_open_read file (some (header, start, size)) ≡ ok count
    → (end : ℕ) × (validate_frames file size count 0 start ≡ some end)
unfolding index_open_read
index_open_read-validated file header start size count e =
    let segment = some (header, start, size) in
    let check = λ (found : ℕ × (Bool × ℕ)).
      index_validate_segment file found.0 (read_u64_le (drop 12 file)) (read_u32_le (drop 20 file))
        found.1.0 found.1.1 segment in
    let m4 : Result ℕ = index_count file >>= λ found. check found >> ok found.0 in
    let m3 = guard (read_u32_le (drop 8 file) == 1) eprotonosupport >> m4 in
    let m2 = guard (bytes_eq (take 8 file) index_magic) einval >> m3 in
    let (b1, e1) = past_guard (leb 24 (length file)) unset m2 count e in
    let (b2, e2) = past_guard (bytes_eq (take 8 file) index_magic) einval m3 count e1 in
    let (b3, e3) = past_guard (read_u32_le (drop 8 file) == 1) eprotonosupport m4 count e2 in
    let (found, e4) = past_bind (index_count file) (λ found. check found >> ok found.0) e3 in
    let (checked, same) = past_check (check found) found.0 count e4 in
    let (end, valid) =
      validated file found.0 (read_u64_le (drop 12 file)) (read_u32_le (drop 20 file)) found.1.0
        found.1.1 header start size checked in
    (end, ap (λ n. validate_frames file size n 0 start) (sym same) ∙ valid)

-- An index that `index_open_read` accepts, for a segment of less than 2^64 bytes whose frames
-- start within the file, lists frames that can all be read, have the least length of a frame, lie
-- in the segment file from the start of its data on, and follow each other without overlap in the
-- order of the index.
pub index_open_read-contiguous :
    (file : List ℕ) (header : SegmentHeader) (start size count : ℕ)
    → start ≤ size
    → size < 2 ^ 64
    → index_open_read file (some (header, start, size)) ≡ ok count
    → (end : ℕ) × (((j : ℕ) → j < count → Placed file start end j)
        × (((j k : ℕ) (f g : IndexFrame)
              → j < k
              → k < count
              → Reads file j f
              → Reads file k g
              → f.file_offset + f.frame_len ≤ g.file_offset)
            × (end ≤ size)))
index_open_read-contiguous file header start size count le small e =
    let (end, valid) = index_open_read-validated file header start size count e in
    (
      end,
      (
        λ j h.
            validate_frames-Placed file size small count 0 start end j le valid (omega arith)
              (omega arith),
        (
          λ j k f g lt h rf rg.
              validate_frames-ordered file size small count 0 start end j k f g le valid
                (omega arith) lt (omega arith) rf rg,
          (validate_frames-end file size small count 0 start end le valid).1,
        ),
      ),
    )
