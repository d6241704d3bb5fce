-- ===== src/Segment/Frame/RoundTrip.antt =====
-- src/segment.c: written frames, whole or torn, as the scan reads them.
use recorder.Common.{ℕ, ◌+◌, ◌-◌, ◌≤◌, ◌<◌, ◌^◌, ◌≡◌, refl, sym, ap, ◌∙◌, arith}
use recorder.Common.{
  Option, none, some, List, [], ◌++◌, append_assoc, append-nil, length, take, drop,
}
use recorder.Common.{
  length-append, length-take, drop-append, drop-append_past, drop-drop, take-append,
  take-append_past,
}
use recorder.Common.{eq→==, ==_refl, le→ltb_false, lt→ltb, ◌==◌, if◌then◌else◌}
use native.Mathlib.Decide.{dec_lt}
use recorder.Bytes.{IsU32, read_u32_le, write_u32_le}
use recorder.Bytes.Words.{read_u32_le-write_u32_le}
use recorder.Bytes.Checksum.{recorder_crc32-IsU32, crc_xor-IsU32}
use recorder.Segment.{SegmentFrameInfo, uint32_max}
use recorder.Segment.Frame.{encode_frame_header, frame_crc, short, frame, read_frame, tag_bytes}

-- A frame as it lies in a segment: its numbers, the stored payload and the tag.
pub record Stored : Type 0 where
  pub flags : ℕ
  pub uncompressed_len : ℕ
  pub payload : List ℕ
  pub tag : Option (List ℕ)

abbrev pub stored_size : Stored → ℕ
stored_size f = 20 + length f.payload + length (tag_bytes f.tag)

abbrev pub stored_header : Stored → List ℕ
stored_header f = encode_frame_header f.flags (length f.payload) f.uncompressed_len (stored_size f)

unfoldable pub encode_frame : Stored → List ℕ
encode_frame f =
    stored_header f
    ++ (f.payload
        ++ (tag_bytes f.tag ++ write_u32_le (frame_crc (stored_header f) f.payload f.tag)))

-- The sizes fit their fields; `tag_size` is that of the segment, and the tag has it.
pub record IsStored (tag_size : ℕ) (f : Stored) : Type 0 where
  pub flags : IsU32 f.flags
  pub uncompressed_len : IsU32 f.uncompressed_len
  pub small : stored_size f < 2 ^ 32
  pub tag_fits : length (tag_bytes f.tag) ≡ tag_size
  pub tag_kind : (if tag_size == 0 then none else some (tag_bytes f.tag)) ≡ f.tag

abbrev pub stored_info : Stored → ℕ → SegmentFrameInfo
stored_info f offset = record {
  flags = f.flags;
  stored_len = length f.payload;
  uncompressed_len = f.uncompressed_len;
  file_offset = offset;
  frame_len = stored_size f;
}

frame_crc-IsU32 :
    (header stored : List ℕ) (tag : Option (List ℕ)) → IsU32 (frame_crc header stored tag)
unfolding frame_crc
frame_crc-IsU32 h s none = crc_xor-IsU32 _ _ (recorder_crc32-IsU32 h) (recorder_crc32-IsU32 s)
frame_crc-IsU32 h s (some t) =
    crc_xor-IsU32 _ _ (crc_xor-IsU32 _ _ (recorder_crc32-IsU32 h) (recorder_crc32-IsU32 s))
      (recorder_crc32-IsU32 t)

-- The loop body's checks, passed one after the other.
read_steps :
    (tag_size : ℕ) (p payload tag : List ℕ) (offset n size : ℕ)
    → read_u32_le (drop 4 p) ≡ n
    → read_u32_le (drop 12 p) ≡ size
    → take n (drop 16 p) ≡ payload
    → take tag_size (drop (16 + n) p) ≡ tag
    → read_u32_le (drop (16 + n + tag_size) p)
      ≡ frame_crc (take 16 p) payload (if tag_size == 0 then none else some tag)
    → size ≡ 16 + n + tag_size + 4
    → size < 2 ^ 32
    → size ≤ length p
    → read_frame tag_size p offset
      ≡ frame
          (record {
            flags = read_u32_le p;
            stored_len = n;
            uncompressed_len = read_u32_le (drop 8 p);
            file_offset = offset;
            frame_len = size;
          })
          payload
          tag
unfolding read_frame
read_steps tag_size p payload tag offset n size e1 e2 e3 e4 e5 e6 small fits =
    rw
      (
        e1,
        e2,
        e3,
        e4,
        e5,
        le→ltb_false (length p) (20 + tag_size) (omega arith),
        le→ltb_false uint32_max (16 + n + tag_size + 4) (omega arith),
        eq→== size (16 + n + tag_size + 4) e6,
        le→ltb_false (length p) size fits,
        ==_refl (frame_crc (take 16 p) payload (if tag_size == 0 then none else some tag)),
      )
      refl

-- the numbers of a frame, whatever stands behind its header
module _ (f : Stored) (behind : List ℕ) where
  abbrev front : List ℕ
  front = stored_header f ++ behind

  read_stored_len : stored_size f < 2 ^ 32 → read_u32_le (drop 4 front) ≡ length f.payload
  unfolding encode_frame_header
  read_stored_len small = read_u32_le-write_u32_le (length f.payload) (drop 8 front) (omega arith)

  read_uncompressed_len : IsU32 f.uncompressed_len → read_u32_le (drop 8 front) ≡ f.uncompressed_len
  unfolding encode_frame_header
  read_uncompressed_len small = read_u32_le-write_u32_le f.uncompressed_len (drop 12 front) small

  read_total_len : stored_size f < 2 ^ 32 → read_u32_le (drop 12 front) ≡ stored_size f
  unfolding encode_frame_header
  read_total_len small = read_u32_le-write_u32_le (stored_size f) behind small

  read_flags : IsU32 f.flags → read_u32_le front ≡ f.flags
  unfolding encode_frame_header
  read_flags small = read_u32_le-write_u32_le f.flags (drop 4 front) small

  drop_header : (n : ℕ) → drop (16 + n) front ≡ drop n behind
  unfolding encode_frame_header
  drop_header n = sym (drop-drop n 16 front)

  pub take_header : take 16 front ≡ stored_header f
  unfolding encode_frame_header
  take_header = refl

  length-front : length front ≡ 16 + length behind
  unfolding encode_frame_header
  length-front = omega arith

module _ (f : Stored) (rest : List ℕ) where
  pub crc : List ℕ
  crc = write_u32_le (frame_crc (stored_header f) f.payload f.tag)

  abbrev behind_header : List ℕ
  behind_header = f.payload ++ (tag_bytes f.tag ++ (crc ++ rest))

  encode_frame-append : encode_frame f ++ rest ≡ front f behind_header
  unfolding encode_frame crc
  encode_frame-append = simp append_assoc

  read_payload : take (length f.payload) (drop 16 (front f behind_header)) ≡ f.payload
  unfolding encode_frame_header
  read_payload = take-append (length f.payload) f.payload _ refl

  drop_payload :
      (n : ℕ)
      → drop (16 + length f.payload + n) (front f behind_header)
        ≡ drop n (tag_bytes f.tag ++ (crc ++ rest))
  drop_payload n =
      ap (λ k. drop k (front f behind_header)) (omega arith)
      ∙ drop_header f behind_header (length f.payload + n)
      ∙ drop-append_past (length f.payload) n f.payload _ refl

  pub length-encode_frame-append : length (encode_frame f ++ rest) ≡ stored_size f + length rest
  unfolding encode_frame encode_frame_header
  length-encode_frame-append = omega (
    arith,
    length-append (encode_frame f) rest,
    length-append f.payload
        (tag_bytes f.tag ++ write_u32_le (frame_crc (stored_header f) f.payload f.tag)),
    length-append (tag_bytes f.tag) (write_u32_le (frame_crc (stored_header f) f.payload f.tag)),
  )

  length-flat : length (front f behind_header) ≡ stored_size f + length rest
  length-flat = rw (← encode_frame-append) length-encode_frame-append

  pub drop-encode_frame : drop (stored_size f) (encode_frame f ++ rest) ≡ rest
  drop-encode_frame =
      drop-append (stored_size f) (encode_frame f) rest
        (omega (arith, length-encode_frame-append, length-append (encode_frame f) rest))

  module _ (tag_size : ℕ) (v : IsStored tag_size f) where
    read_tag :
        take tag_size (drop (16 + length f.payload) (front f behind_header)) ≡ tag_bytes f.tag
    read_tag =
        ap (λ k. take tag_size (drop k (front f behind_header))) (omega arith)
        ∙ ap (take tag_size) (drop_payload 0)
        ∙ take-append tag_size (tag_bytes f.tag) (crc ++ rest) v.tag_fits

    read_crc :
        read_u32_le (drop (16 + length f.payload + tag_size) (front f behind_header))
        ≡ frame_crc
            (take 16 (front f behind_header))
            f.payload
            (if tag_size == 0 then none else some (tag_bytes f.tag))
    unfolding crc
    read_crc =
        ap read_u32_le
          (drop_payload tag_size ∙ drop-append tag_size (tag_bytes f.tag) (crc ++ rest) v.tag_fits)
        ∙ read_u32_le-write_u32_le (frame_crc (stored_header f) f.payload f.tag) rest
            (frame_crc-IsU32 _ _ f.tag)
        ∙ rw (v.tag_kind, take_header f behind_header) refl

    -- The scan reads a stored frame whose fields fit back as it was written, its tag included,
    -- whatever follows it in the file.
    pub read_frame-encode_frame :
        (offset : ℕ)
        → read_frame tag_size (encode_frame f ++ rest) offset
          ≡ frame (stored_info f offset) f.payload (tag_bytes f.tag)
    read_frame-encode_frame offset =
        ap (λ p. read_frame tag_size p offset) encode_frame-append
        ∙ read_steps tag_size (front f behind_header) f.payload (tag_bytes f.tag) offset
            (length f.payload) (stored_size f) (read_stored_len f behind_header v.small)
            (read_total_len f behind_header v.small) read_payload read_tag read_crc
            (omega (arith, v.tag_fits)) v.small (omega (arith, length-flat))
        ∙ (λ i.
            frame
              (record {
                flags = read_flags f behind_header v.flags i;
                stored_len = length f.payload;
                uncompressed_len = read_uncompressed_len f behind_header v.uncompressed_len i;
                file_offset = offset;
                frame_len = stored_size f;
              })
              f.payload (tag_bytes f.tag))

short_steps :
    (tag_size : ℕ) (p : List ℕ) (offset n size : ℕ)
    → read_u32_le (drop 4 p) ≡ n
    → read_u32_le (drop 12 p) ≡ size
    → size ≡ 16 + n + tag_size + 4
    → size < 2 ^ 32
    → length p < size
    → read_frame tag_size p offset ≡ short
unfolding read_frame
short_steps tag_size p offset n size e1 e2 e6 small cut = elim (dec_lt (length p) (20 + tag_size)) [
  | yes few ↦ rw (lt→ltb (length p) (20 + tag_size) few) refl
  | no many ↦
      rw
        (
          e1,
          e2,
          le→ltb_false (length p) (20 + tag_size) (omega arith),
          le→ltb_false uint32_max (16 + n + tag_size + 4) (omega arith),
          eq→== size (16 + n + tag_size + 4) e6,
          lt→ltb (length p) size cut,
        )
        refl
]

few_bytes :
    (tag_size : ℕ) (p : List ℕ) (offset : ℕ) → length p < 16 → read_frame tag_size p offset ≡ short
unfolding read_frame
few_bytes tag_size p offset few = rw (lt→ltb (length p) (20 + tag_size) (omega arith)) refl

-- A proper front part of a stored frame, at the end of the file, is taken for a torn write.
pub read_frame_torn :
    (tag_size : ℕ) (f : Stored) (offset k : ℕ)
    → IsStored tag_size f
    → k < stored_size f
    → read_frame tag_size (take k (encode_frame f)) offset ≡ short
read_frame_torn tag_size f offset k v cut = elim (dec_lt k 16) [
  | yes few ↦
      few_bytes tag_size (take k (encode_frame f)) offset
        (omega (arith, length-take k (encode_frame f)))
  | no many ↦
      ap (λ p. read_frame tag_size p offset) (header_first (omega arith))
      ∙ short_steps tag_size (front f (take (k - 16) behind)) offset (length f.payload)
          (stored_size f) (read_stored_len f _ v.small) (read_total_len f _ v.small)
          (omega (arith, v.tag_fits)) v.small
          (omega (arith, length-front f (take (k - 16) behind), length-take (k - 16) behind))
]
  where
    behind : List ℕ
    behind = behind_header f []

    header_first : 16 ≤ k → take k (encode_frame f) ≡ front f (take (k - 16) behind)
    header_first long =
        ap (take k) (sym (append-nil (encode_frame f)) ∙ encode_frame-append f [])
        ∙ ap (λ n. take n (front f behind)) size
        ∙ take-append_past (k - 16) (stored_header f) behind
      where
        size : k ≡ length (stored_header f) + (k - 16)
        size = unfold encode_frame_header in omega arith

pub take-encode_frame :
    (f : Stored) (rest : List ℕ) → take 16 (encode_frame f ++ rest) ≡ stored_header f
take-encode_frame f rest =
    ap (take 16) (encode_frame-append f rest) ∙ take_header f (behind_header f rest)
