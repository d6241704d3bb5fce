-- ===== src/Segment/Reader/Agrees.antt =====
-- src/segment.c: `segment_frame_reader_scan` beside the scan of a whole file.
use recorder.Common.{
  ℕ, ◌+◌, ◌-◌, ◌≤◌, ◌≡◌, ◌⊎◌, refl, sym, ap, ◌∙◌, subst, arith, inl, inr, Bool, true, false, ◌||◌,
  not, Bool-cases, Option-cases, none, some,
}
use recorder.Common.{
  List, length, take, drop, length-drop, ltb, ◌==◌, if◌then◌else◌, le→ltb_false, unset, eio,
}
use recorder.Bytes.{read_u32_le}
use recorder.Segment.{SegmentFrameInfo, frame_header_size, gcm_tag_size, uint32_max}
use recorder.Segment.Crypto.{Crypto, Codec}
use recorder.Segment.Frame.{FrameRead, short, bad, frame, read_frame, frame_crc}
use recorder.Segment.Scan.{
  Callback, ScanState, is_encrypted, plain_payload, decompress_payload, verify_chunk, deliver,
  Delivery, passed, rejected, undecodable,
}
use recorder.Segment.Reader.{FrameScan, refused, called, reader_deliver, segment_frame_reader_scan}

-- A callback that was called with 0 passed the frame, with another value it stopped the scan.
abbrev pub Matches : {S : Type 0} → Delivery S → FrameScan S → Type 0
Matches (passed s) r = r ≡ called s 0
Matches (rejected s rc) r = r ≡ called s rc
Matches undecodable r = (r ≡ refused eio) ⊎ (r ≡ refused unset)

-- The checks that a frame passed which the scan read.
module _ (tag_size : ℕ) (p : List ℕ) (offset : ℕ) where
  abbrev stored : ℕ
  stored = read_u32_le (drop 4 p)

  abbrev total : ℕ
  total = read_u32_le (drop 12 p)

  abbrev payload_at : List ℕ
  payload_at = take stored (drop frame_header_size p)

  abbrev tag_at : List ℕ
  tag_at = take tag_size (drop (frame_header_size + stored) p)

  abbrev crc_at : ℕ
  crc_at =
      frame_crc (take frame_header_size p) payload_at (if tag_size == 0 then none else some tag_at)

  abbrev info_at : SegmentFrameInfo
  info_at = record {
    flags = read_u32_le p;
    stored_len = stored;
    uncompressed_len = read_u32_le (drop 8 p);
    file_offset = offset;
    frame_len = total;
  }

  abbrev wrong_size : Bool
  wrong_size =
      ltb uint32_max (frame_header_size + stored + tag_size + 4)
      || not (total == frame_header_size + stored + tag_size + 4)

  abbrev crc_right : Bool
  crc_right = read_u32_le (drop (frame_header_size + stored + tag_size) p) == crc_at

  record Passed : Type 0 where
    room : ltb (length p) (frame_header_size + 4 + tag_size) ≡ false
    size : wrong_size ≡ false
    whole : ltb (length p) total ≡ false
    crc : crc_right ≡ true
    same_frame : read_frame tag_size p offset ≡ frame info_at payload_at tag_at

  read_frame-Passed :
      (info : SegmentFrameInfo) (payload tag : List ℕ)
      → read_frame tag_size p offset ≡ frame info payload tag
      → Passed
  unfolding read_frame
  read_frame-Passed info payload tag e =
      elim (Bool-cases (ltb (length p) (frame_header_size + 4 + tag_size))) [
        | inl a ↦ let wrong = rw (a, read_frame) at e in cc
        | inr a ↦ elim (Bool-cases wrong_size) [
          | inl b ↦ let wrong = rw (a, b, read_frame) at e in cc
          | inr b ↦ elim (Bool-cases (ltb (length p) total)) [
            | inl d ↦ let wrong = rw (a, b, d, read_frame) at e in cc
            | inr d ↦ elim (Bool-cases crc_right) [
              | inr f ↦ let wrong = rw (a, b, d, f, read_frame) at e in cc
              | inl f ↦ record {
                room = a;
                size = b;
                whole = d;
                crc = f;
                same_frame = rw (a, b, d, f, read_frame) refl;
              }
            ]
          ]
        ]
      ]

module _ {S : Type 0} (c : Crypto) (codec : Codec) (cb : Callback S) where
  called-Matches :
      (s : S) (rc : ℕ) → Matches (if rc == 0 then passed s else rejected s rc) (called s rc)
  called-Matches s rc = elim (Bool-cases (rc == 0)) [
    | inl zero_rc ↦ rw zero_rc (ap (called s) (ground (arith, zero_rc)))
    | inr other ↦ rw other refl
  ]

  deliver-Matches :
      (z : ScanState c codec (some cb) 0) (info : SegmentFrameInfo) (h payload tag : List ℕ) (i : ℕ)
      (s : S)
      → Matches
          (deliver c codec (some cb) 0 z info h payload tag i s)
          (reader_deliver c codec cb z info h payload tag i s)
  unfolding deliver reader_deliver
  deliver-Matches z info h payload tag i s =
      rw (le→ltb_false info.file_offset 0 (omega arith), deliver)
        (elim (Option-cases (plain_payload c codec (some cb) 0 z info h payload tag i)) [
          | inl fails ↦ rw (fails, reader_deliver) (inl refl)
          | inr (plain, good) ↦
              elim (Option-cases (decompress_payload codec z.header z.dict_bytes info plain)) [
                | inl fails ↦ rw (good, fails, reader_deliver) (inr refl)
                | inr (chunk, whole) ↦ elim (Bool-cases (verify_chunk codec z.header chunk)) [
                  | inl fine ↦ rw (good, whole, fine, reader_deliver) (called-Matches _ _)
                  | inr broken ↦ rw (good, whole, broken, reader_deliver) (inr refl)
                ]
              ]
        ])

  -- Where the scan reads a frame, the single reader gets to the same point.
  reader_passes :
      (z : ScanState c codec (some cb) 0) (data_offset : ℕ) (file : List ℕ) (offset i : ℕ) (s : S)
      → data_offset ≤ offset
      → offset ≤ length file
      → Passed
          (if is_encrypted c codec (some cb) 0 z then gcm_tag_size else 0)
          (drop offset file)
          offset
      → segment_frame_reader_scan c codec cb z data_offset file offset i s
        ≡ reader_deliver c codec cb z
            (info_at
              (if is_encrypted c codec (some cb) 0 z then gcm_tag_size else 0)
              (drop offset file)
              offset)
            (take frame_header_size (drop offset file))
            (payload_at
              (if is_encrypted c codec (some cb) 0 z then gcm_tag_size else 0)
              (drop offset file)
              offset)
            (tag_at
              (if is_encrypted c codec (some cb) 0 z then gcm_tag_size else 0)
              (drop offset file)
              offset)
            i
            s
  unfolding segment_frame_reader_scan
  reader_passes z data_offset file offset i s start within v =
      let ts = if is_encrypted c codec (some cb) 0 z then gcm_tag_size else 0 in
      let left = length-drop offset file in
      let in_range : (ltb offset data_offset || ltb (length file - frame_header_size - 4) offset)
          ≡ false =
        ground (arith, v.room, left) in
      let fits : (ltb uint32_max (frame_header_size + stored ts (drop offset file) offset + ts + 4)
            || (not (
                  total ts (drop offset file) offset
                  == frame_header_size + stored ts (drop offset file) offset + ts + 4)
                || ltb (length file - offset) (total ts (drop offset file) offset)))
          ≡ false =
        ground (arith, v.size, v.whole, left) in
      rw (in_range, fits, v.crc, segment_frame_reader_scan) refl

  -- The reader of a single frame agrees with the scan: at an offset in the file and not before
  -- the data, where the scan reads a whole valid frame, and with the same keys, header and frame
  -- index, the reader calls the callback with the same result exactly when the scan delivers the
  -- frame, and refuses it when the scan cannot decode it.
  pub segment_frame_reader_scan-Matches :
      (z : ScanState c codec (some cb) 0) (data_offset : ℕ) (file : List ℕ) (offset i : ℕ) (s : S)
      (info : SegmentFrameInfo) (payload tag : List ℕ)
      → data_offset ≤ offset
      → offset ≤ length file
      → read_frame
          (if is_encrypted c codec (some cb) 0 z then gcm_tag_size else 0)
          (drop offset file)
          offset
        ≡ frame info payload tag
      → Matches
          (deliver c codec
            (some cb)
            0
            z
            info
            (take frame_header_size (drop offset file))
            payload
            tag
            i
            s)
          (segment_frame_reader_scan c codec cb z data_offset file offset i s)
  segment_frame_reader_scan-Matches z data_offset file offset i s info payload tag start within e =
      let v = read_frame-Passed _ (drop offset file) offset info payload tag e in
      subst outcome (sym v.same_frame ∙ e) (
        rw (reader_passes z data_offset file offset i s start within v)
          (deliver-Matches z _ _ _ _ i s))
    where
      outcome : FrameRead → Type 0
      outcome short = Unit
      outcome bad = Unit
      outcome (frame j pl t) =
          Matches
            (deliver c codec (some cb) 0 z j (take frame_header_size (drop offset file)) pl t i s)
            (segment_frame_reader_scan c codec cb z data_offset file offset i s)
