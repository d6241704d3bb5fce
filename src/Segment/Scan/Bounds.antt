-- ===== src/Segment/Scan/Bounds.antt =====
-- src/segment.c: `segment_scan_impl` on any bytes.
use recorder.Common.{
  past_bind, ◌%◌, leb→le, ok-injective, ap, ◌<◌, ◌^◌, Result-cases, past_guard, ℕ, zero, suc, ◌+◌,
  ◌-◌, ◌≤◌, ◌≡◌, ◌≢◌, refl, arith, ◌⊎◌, inl, inr,
}
use recorder.Common.{
  Bool, true, false, ◌&&◌, Option, none, if◌then◌else◌, ◌==◌, ok, is_some, bytes_eq, leb, guard,
  ◌>>=◌, ◌>>◌, unset,
}
use recorder.Common.{
  List, [], ◌∷◌, length, take, drop, length-drop, Option-cases, Bool-cases, Result, eio, eoverflow,
}
use recorder.Segment.{
  SegmentFrameInfo, SegmentHeader, SegmentEncryptionInfo, has_flag, flag_encrypted, gcm_tag_size,
  uint64_max, frame_header_size, header_fixed_size, segment_magic,
}
use recorder.Segment.Crypto.{Crypto, Codec}
use recorder.Bytes.{read_u32_le}
use recorder.Segment.Header.{
  segment_parse_header, finish_header, header_crc, decode_fields, parse_optional_extension,
}
use recorder.Segment.Frame.{FrameRead, short, bad, frame, read_frame}
use recorder.Segment.Footer.{footer_at}
use recorder.Segment.Scan.{
  Callback, Scan, finished, failed, stopped, out_of_fuel, Delivery, passed, undecodable, rejected,
  ScanState, is_encrypted, deliver, scan_loop, no_footer, segment_scan_impl,
}

read_frame_size :
    (tag_size : ℕ) (p : List ℕ) (offset : ℕ) (info : SegmentFrameInfo) (payload tag : List ℕ)
    → read_frame tag_size p offset ≡ frame info payload tag
    → (20 ≤ info.frame_len) × (info.frame_len ≤ length p)
unfolding read_frame
read_frame_size tag_size p offset info payload tag e = ground arith

footer_at_size : (p : List ℕ) → footer_at p ≢ none → 48 ≤ length p
unfolding footer_at
footer_at_size p e = ground arith

in_range :
    (size n : ℕ)
    → (leb header_fixed_size size && leb size n) ≡ true
    → (header_fixed_size ≤ size) × (size ≤ n)
in_range size n h = ground arith

finish_offset :
    (buf : List ℕ) (size : ℕ) (ext : List ℕ) (k0 k : SegmentEncryptionInfo) (h : SegmentHeader)
    (offset : ℕ)
    → size ≤ length buf
    → length buf < 2 ^ 32
    → finish_header buf size ext k0 ≡ ok (h, offset, k)
    → (size ≤ offset) × (offset ≤ length buf)
unfolding finish_header
finish_offset buf size ext k0 k h offset le few e =
    let d = (decode_fields buf).dict_len in
    let last : Result (SegmentHeader × ℕ × SegmentEncryptionInfo) =
      ok (decode_fields buf, (size + d) % 2 ^ 32, k0) in
    let fits = guard (leb d (length buf - size)) unset >> last in
    let (crc, e1) =
      past_guard (read_u32_le (drop 148 buf) == header_crc (take 148 buf) ext) unset fits _ e in
    let (room, e2) = past_guard (leb d (length buf - size)) unset last _ e1 in
    let same : (size + d) % 2 ^ 32 ≡ offset = ap (λ r. r.1) (ok-injective _ _ e2) in
    let small : d ≤ length buf - size = leb→le _ _ room in (omega arith, omega arith)

-- The first frame of an accepted header lies in the file.
parse_offset :
    (buf : List ℕ) (h : SegmentHeader) (offset : ℕ) (k : SegmentEncryptionInfo)
    → length buf < 2 ^ 32
    → segment_parse_header buf ≡ ok (h, offset, k)
    → (header_fixed_size ≤ offset) × (offset ≤ length buf)
unfolding segment_parse_header
parse_offset buf h offset k few e =
    let size = read_u32_le (drop 12 buf) in
    let ext = take (size - header_fixed_size) (drop header_fixed_size buf) in
    let bind = parse_optional_extension (decode_fields buf).flags ext (size - header_fixed_size) in
    let m4 : Result (SegmentHeader × ℕ × SegmentEncryptionInfo) =
      bind >>= λ k0. finish_header buf size ext k0 in
    let m3 = guard (leb header_fixed_size size && leb size (length buf)) unset >> m4 in
    let m2 = guard (read_u32_le (drop 8 buf) == 1) unset >> m3 in
    let m1 = guard (bytes_eq (take 8 buf) segment_magic) unset >> m2 in
    let (b1, e1) = past_guard (leb header_fixed_size (length buf)) unset m1 _ e in
    let (b2, e2) = past_guard (bytes_eq (take 8 buf) segment_magic) unset m2 _ e1 in
    let (b3, e3) = past_guard (read_u32_le (drop 8 buf) == 1) unset m3 _ e2 in
    let (b4, e4) = past_guard (leb header_fixed_size size && leb size (length buf)) unset m4 _ e3 in
    let (k0, e5) = past_bind bind (λ k1. finish_header buf size ext k1) e4 in
    let (least, most) = in_range size (length buf) b4 in
    let (first, last) = finish_offset buf size ext k0 k h offset most few e5 in
    (omega (arith, least, first), last)

-- The scan came to an end, and what it counts as committed lies between `lo` and `hi`.
abbrev pub EndsWithin : {S : Type 0} → ℕ → ℕ → Scan S → Type 0
EndsWithin lo hi (finished s header footer committed_end) =
    (lo ≤ committed_end) × (committed_end ≤ hi)
EndsWithin lo hi (failed s e) = Unit
EndsWithin lo hi (stopped s rc) = Unit
EndsWithin lo hi out_of_fuel = ⊥

FrameRead-cases :
    (r : FrameRead)
    → (r ≡ short)
      ⊎ (r ≡ bad)
      ⊎ ((i : SegmentFrameInfo) × (pl : List ℕ) × (tag : List ℕ) × (r ≡ frame i pl tag))
FrameRead-cases short = inl refl
FrameRead-cases bad = inr (inl refl)
FrameRead-cases (frame i pl tag) = inr (inr (i, pl, tag, refl))

Delivery-cases :
    {S : Type 0} (d : Delivery S)
    → (d ≡ undecodable) ⊎ ((s : S) × (d ≡ passed s)) ⊎ ((s : S) × (rc : ℕ) × (d ≡ rejected s rc))
Delivery-cases (passed s) = inr (inl (s, refl))
Delivery-cases undecodable = inl refl
Delivery-cases (rejected s rc) = inr (inr (s, rc, refl))

widen :
    {S : Type 0} (lo lo' hi hi' : ℕ) (r : Scan S)
    → lo ≤ lo'
    → hi' ≤ hi
    → EndsWithin lo' hi' r
    → EndsWithin lo hi r
widen lo lo' hi hi' (finished s h f n) a b e = omega arith
widen lo lo' hi hi' (failed s x) a b e = tt
widen lo lo' hi hi' (stopped s rc) a b e = tt
widen lo lo' hi hi' out_of_fuel a b e = e

module _ {S : Type 0} (c : Crypto) (codec : Codec) (cb : Option (Callback S)) (min_offset : ℕ) where
  -- a refused frame: an error in an encrypted segment, the end of a plain one
  broken_ends :
      (z : ScanState c codec cb min_offset) (b : Bool) (s : S) (offset n : ℕ)
      → EndsWithin offset
          (offset + n)
          (if b then failed s eio else finished s z.header no_footer offset)
  broken_ends z true s offset n = tt
  broken_ends z false s offset n = omega arith

  guarded_ends :
      (b : Bool) (s : S) (lo hi : ℕ) (r : Scan S)
      → EndsWithin lo hi r
      → EndsWithin lo hi (if b then failed s eoverflow else r)
  guarded_ends true s lo hi r e = tt
  guarded_ends false s lo hi r e = e

  scan_loop_ends :
      (z : ScanState c codec cb min_offset) (fuel : ℕ) (p : List ℕ) (offset i : ℕ) (s : S)
      → length p ≤ fuel
      → EndsWithin offset (offset + length p) (scan_loop c codec cb min_offset z fuel p offset i s)
  unfolding scan_loop
  scan_loop_ends z fuel [] offset i s h = omega arith
  scan_loop_ends z zero (b ∷ bs) offset i s h = absurd (omega arith)
  scan_loop_ends z (suc fuel) (b ∷ bs) offset i s h = elim (Option-cases (footer_at (b ∷ bs))) [
    | inr (f, e) ↦ rw (e, scan_loop) (omega (arith, footer_at_size (b ∷ bs) (λ n. cc)))
    | inl e ↦
        elim (FrameRead-cases (
          read_frame (if is_encrypted c codec cb min_offset z then gcm_tag_size else 0) (b ∷ bs)
            offset)) [
              | inl r ↦ rw (e, r, scan_loop) (omega arith)
              | inr (inl r) ↦
                  rw (e, r, scan_loop)
                    (broken_ends z (is_encrypted c codec cb min_offset z) s offset
                      (suc (length bs)))
              | inr (inr (info, payload, tag, r)) ↦
                  elim (Delivery-cases (
                    deliver c codec cb min_offset z info (take frame_header_size (b ∷ bs)) payload
                      tag i s)) [
                        | inl d ↦
                            rw (e, r, d, scan_loop)
                              (broken_ends z (is_encrypted c codec cb min_offset z) s offset
                                (suc (length bs)))
                        | inr (inr (m, rc, d)) ↦ rw (e, r, d, scan_loop) tt
                        | inr (inl (m, d)) ↦
                            let (least, most) =
                              read_frame_size _ (b ∷ bs) offset info payload tag r in
                            let left = length-drop info.frame_len (b ∷ bs) in
                            rw (e, r, d, scan_loop)
                              (guarded_ends
                                (is_encrypted c codec cb min_offset z && (i == uint64_max)) m offset
                                _ _
                                (widen offset (offset + info.frame_len) _ _ _ (omega arith)
                                  (omega (arith, left))
                                  (scan_loop_ends z fuel (drop info.frame_len (b ∷ bs))
                                    (offset + info.frame_len) (i + 1) m (omega (arith, left)))))
                      ]
            ]
  ]

  -- Whatever the bytes of a file of less than 4 GiB, encrypted or not, and whatever the callback
  -- does, the loop of the scan comes to an end within as many rounds as the file has bytes, and
  -- what it reports as committed includes the fixed header and lies within the file.
  pub segment_scan_impl-EndsWithin :
      (decryptor : Option c.PrivateKey) (buf : List ℕ) (s : S)
      → length buf < 2 ^ 32
      → EndsWithin header_fixed_size
          (length buf)
          (segment_scan_impl c codec cb min_offset decryptor buf s)
  unfolding segment_scan_impl
  segment_scan_impl-EndsWithin decryptor buf s few =
      elim (Result-cases (segment_parse_header buf)) [
        | inr (x, e) ↦ rw (e, segment_scan_impl) tt
        | inl ((h, offset, k), e) ↦
            let (first, last) = parse_offset buf h offset k few e in
            let run = λ (z : ScanState c codec cb min_offset).
              widen header_fixed_size offset (length buf) (offset + length (drop offset buf)) _
                first (omega (arith, length-drop offset buf, last))
                (scan_loop_ends z (length buf) (drop offset buf) offset 0 s
                  (omega (arith, length-drop offset buf))) in
            elim (Bool-cases (has_flag h.flags flag_encrypted && is_some cb)) [
              | inr plain ↦ rw (e, plain, segment_scan_impl) (run _)
              | inl secret ↦ elim (Option-cases decryptor) [
                | inl d ↦ rw (e, secret, d, segment_scan_impl) tt
                | inr (key, d) ↦ elim (Option-cases (c.unwrap_dek key k.wrapped_dek)) [
                  | inl u ↦ rw (e, secret, d, u, segment_scan_impl) tt
                  | inr (dek, u) ↦ rw (e, secret, d, u, segment_scan_impl) (run _)
                ]
              ]
            ]
      ]
