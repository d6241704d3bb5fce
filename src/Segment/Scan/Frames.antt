-- ===== src/Segment/Scan/Frames.antt =====
-- The loop of `segment_scan_impl` over a run of stored frames, and at what ends the run.
use recorder.Common.{ℕ, suc, ◌+◌, ◌*◌, ◌≤◌, ◌<◌, ◌≡◌, refl, ap, ◌∙◌, arith}
use recorder.Common.{false, ◌&&◌, Option, none, some, if◌then◌else◌, ◌==◌}
use recorder.Common.{List, [], ◌∷◌, ◌++◌, append_assoc, length, take, drop, All}
use recorder.Segment.{
  SegmentFrameInfo, SegmentFooter, gcm_tag_size, uint64_max, frame_header_size, footer_size,
}
use recorder.Segment.Crypto.{Crypto, Codec}
use recorder.Segment.Frame.{short, frame, read_frame, tag_bytes}
use recorder.Segment.Frame.RoundTrip.{
  Stored, IsStored, stored_size, stored_header, stored_info, encode_frame, read_frame-encode_frame,
  drop-encode_frame, length-encode_frame-append, take-encode_frame,
}
use recorder.Segment.Footer.{footer_at}
use recorder.Segment.Scan.{
  Callback, Scan, finished, Delivery, passed, undecodable, rejected, ScanState, is_encrypted,
  deliver, scan_loop, no_footer,
}

unfoldable pub encode_frames : List Stored → List ℕ
encode_frames [] = []
encode_frames (f ∷ fs) = encode_frame f ++ encode_frames fs

unfoldable pub frames_size : List Stored → ℕ
frames_size [] = 0
frames_size (f ∷ fs) = stored_size f + frames_size fs

pub length-encode_frames-append :
    (fs : List Stored) (rest : List ℕ)
    → length (encode_frames fs ++ rest) ≡ frames_size fs + length rest
unfolding encode_frames frames_size
length-encode_frames-append [] rest = omega arith
length-encode_frames-append (f ∷ fs) rest = omega (
  arith,
  length-encode_frame-append f (encode_frames fs ++ rest),
  length-encode_frames-append fs rest,
  ap length (append_assoc (encode_frame f) (encode_frames fs) rest),
)

pub length-le-frames_size : (fs : List Stored) → 20 * length fs ≤ frames_size fs
unfolding frames_size
length-le-frames_size [] = omega arith
length-le-frames_size (f ∷ fs) = omega (arith, length-le-frames_size fs)

-- At no frame of the run does the scan see a footer. (A payload can hold the bytes of one.)
abbrev pub Quiet : List Stored → List ℕ → Type 0
Quiet [] tail = Unit
Quiet (f ∷ fs) tail =
    (footer_at (encode_frame f ++ (encode_frames fs ++ tail)) ≡ none) × Quiet fs tail

module _ {S : Type 0} (c : Crypto) (codec : Codec) (cb : Option (Callback S)) (min_offset : ℕ)
    (z : ScanState c codec cb min_offset) where
  abbrev pub tag_size : ℕ
  tag_size = if is_encrypted c codec cb min_offset z then gcm_tag_size else 0

  abbrev pub loop : ℕ → List ℕ → ℕ → ℕ → S → Scan S
  loop = scan_loop c codec cb min_offset z

  -- the deliveries of the frames, in their order
  unfoldable pub deliver_all : List Stored → ℕ → ℕ → S → Delivery S
  deliver_all [] offset frame_index s = passed s
  deliver_all (f ∷ fs) offset frame_index s =
      elim (deliver c codec cb min_offset z (stored_info f offset) (stored_header f) f.payload
        (tag_bytes f.tag) frame_index s) [
          | passed s' ↦ deliver_all fs (offset + stored_size f) (frame_index + 1) s'
          | undecodable ↦ undecodable
          | rejected s' rc ↦ rejected s' rc
        ]

  scan_step :
      (fuel : ℕ) (p : List ℕ) (offset frame_index : ℕ) (s s' : S) (info : SegmentFrameInfo)
      (payload tag : List ℕ)
      → 0 < length p
      → footer_at p ≡ none
      → read_frame tag_size p offset ≡ frame info payload tag
      → deliver c codec cb min_offset z info (take frame_header_size p) payload tag frame_index s
        ≡ passed s'
      → frame_index < uint64_max
      → loop (suc fuel) p offset frame_index s
        ≡ loop fuel (drop info.frame_len p) (offset + info.frame_len) (frame_index + 1) s'
  unfolding scan_loop
  scan_step fuel [] offset i s s' info payload tag h e1 e2 e3 lt = absurd (omega arith)
  scan_step fuel (b ∷ bs) offset i s s' info payload tag h e1 e2 e3 lt =
      rw (e1, e2, e3, last, scan_loop) refl
    where
      last : (is_encrypted c codec cb min_offset z && (i == uint64_max)) ≡ false
      last = ground arith

  -- A torn frame ends the scan in front of it.
  pub scan_short :
      (fuel : ℕ) (p : List ℕ) (offset frame_index : ℕ) (s : S)
      → footer_at p ≡ none
      → read_frame tag_size p offset ≡ short
      → loop (suc fuel) p offset frame_index s ≡ finished s z.header no_footer offset
  unfolding scan_loop
  scan_short fuel [] offset i s e1 e2 = refl
  scan_short fuel (b ∷ bs) offset i s e1 e2 = rw (e1, e2, scan_loop) refl

  -- A footer ends it behind the footer.
  pub scan_footer :
      (fuel : ℕ) (p : List ℕ) (offset frame_index : ℕ) (s : S) (f : SegmentFooter)
      → 0 < length p
      → footer_at p ≡ some f
      → loop (suc fuel) p offset frame_index s ≡ finished s z.header f (offset + footer_size)
  unfolding scan_loop
  scan_footer fuel [] offset i s f h e = absurd (omega arith)
  scan_footer fuel (b ∷ bs) offset i s f h e = rw (e, scan_loop) refl

  abbrev deliver_one : Stored → ℕ → ℕ → S → Delivery S
  deliver_one f offset i s =
      deliver c codec cb min_offset z (stored_info f offset) (stored_header f) f.payload
        (tag_bytes f.tag) i s

  first_passed :
      (d : Delivery S) (next : S → Delivery S) (s' : S)
      → elim d as (λ x. Delivery S) [
        | passed m ↦ next m
        | undecodable ↦ undecodable
        | rejected m rc ↦ rejected m rc
      ]
        ≡ passed s'
      → (m : S) × (d ≡ passed m) × (next m ≡ passed s')
  first_passed (passed m) next s' e = (m, refl, e)
  first_passed undecodable next s' e = cc
  first_passed (rejected m rc) next s' e = cc

  deliver_all-cons :
      (f : Stored) (fs : List Stored) (offset i : ℕ) (s s' : S)
      → deliver_all (f ∷ fs) offset i s ≡ passed s'
      → (m : S) × (deliver_one f offset i s ≡ passed m)
        × (deliver_all fs (offset + stored_size f) (i + 1) m ≡ passed s')
  unfolding deliver_all
  deliver_all-cons f fs offset i s s' e =
      first_passed (deliver_one f offset i s)
        (λ m. deliver_all fs (offset + stored_size f) (i + 1) m) s' e

  loop_cong :
      (n m : ℕ) (p q : List ℕ) (o o' i i' : ℕ) (s s' : S)
      → n ≡ m
      → p ≡ q
      → o ≡ o'
      → i ≡ i'
      → s ≡ s'
      → loop n p o i s ≡ loop m q o' i' s'
  loop_cong n m p q o o' i i' s s' e1 e2 e3 e4 e5 = λ j. loop (e1 j) (e2 j) (e3 j) (e4 j) (e5 j)

  -- The loop passes over a run of frames, one delivery after the other.
  pub scan_loop-encode_frames :
      (fs : List Stored) (tail : List ℕ) (fuel offset frame_index : ℕ) (s s' : S)
      → All (IsStored tag_size) fs
      → Quiet fs tail
      → deliver_all fs offset frame_index s ≡ passed s'
      → frame_index + length fs ≤ uint64_max
      → loop (length fs + fuel) (encode_frames fs ++ tail) offset frame_index s
        ≡ loop fuel tail (offset + frames_size fs) (frame_index + length fs) s'
  unfolding encode_frames frames_size
  scan_loop-encode_frames [] tail fuel offset i s s' v q d lt =
      loop_cong (0 + fuel) fuel tail tail offset (offset + 0) i (i + 0) s s' (omega arith) refl
        (omega arith) (omega arith) (unfold deliver_all in cc)
  scan_loop-encode_frames (f ∷ fs) tail fuel offset i s s' v q d lt =
      let (m, one, more) = deliver_all-cons f fs offset i s s' d in
      let p = encode_frame f ++ (encode_frames fs ++ tail) in
      loop_cong (suc (length fs) + fuel) (suc (length fs + fuel)) _ p offset offset i i s s
        (omega arith) (append_assoc (encode_frame f) (encode_frames fs) tail) refl refl refl
      ∙ scan_step (length fs + fuel) p offset i s m (stored_info f offset) f.payload
          (tag_bytes f.tag) (omega (arith, length-encode_frame-append f (encode_frames fs ++ tail)))
          q.0 (read_frame-encode_frame f (encode_frames fs ++ tail) tag_size v.0 offset)
          (rw (take-encode_frame f (encode_frames fs ++ tail)) one) (omega arith)
      ∙ ap (λ t. loop (length fs + fuel) t (offset + stored_size f) (i + 1) m)
          (drop-encode_frame f (encode_frames fs ++ tail))
      ∙ scan_loop-encode_frames fs tail fuel (offset + stored_size f) (i + 1) m s' v.1 q.1 more
          (omega arith)
      ∙ loop_cong fuel fuel tail tail _ (offset + (stored_size f + frames_size fs)) _
          (i + suc (length fs)) s' s' refl refl (omega arith) (omega arith) refl
