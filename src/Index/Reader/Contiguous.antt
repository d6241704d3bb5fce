-- ===== src/Index/Reader/Contiguous.antt =====
-- src/index.c: the loop of `index_validate_segment` over the records.
use recorder.Common.{ℕ, zero, suc, ◌+◌, ◌%◌, ◌^◌, ◌<◌, ◌≤◌, ◌≡◌, sym, ap, ◌∙◌, arith, inl, inr}
use recorder.Common.{false, ◌||◌, not, Bool-cases, Option-cases, some, List, ltb, ◌==◌}
use mathlib.Core.Option.{some-injective}
use native.Mathlib.Decide.{dec_lt}
use recorder.Index.{IndexFrame}
use recorder.Index.Reader.{index_pread_frame, validate_frames, sub64}

-- The record `i` can be read, and is `frame`.
abbrev pub Reads : List ℕ → ℕ → IndexFrame → Type 0
Reads file i frame = index_pread_frame file i ≡ some frame

-- Where the frame `j` of the index stands, between two offsets of the segment file.
pub record Placed (file : List ℕ) (start end j : ℕ) : Type 0 where
  pub frame : IndexFrame
  pub read : Reads file j frame
  pub long : 20 ≤ frame.frame_len
  pub after : start ≤ frame.file_offset
  pub before : frame.file_offset + frame.frame_len ≤ end

module _ (file : List ℕ) (size : ℕ) (small : size < 2 ^ 64) where
  -- One round of the loop that did not fail.
  record Round (n i start end : ℕ) : Type 0 where
    frame : IndexFrame
    read : Reads file i frame
    long : 20 ≤ frame.frame_len
    placed : frame.file_offset ≡ start
    fits : start + frame.frame_len ≤ size
    rest : validate_frames file size n (suc i) (start + frame.frame_len) ≡ some end

  checks_passed :
      (frame : IndexFrame) (start : ℕ)
      → start ≤ size
      → (ltb frame.frame_len 20
          || (not (frame.file_offset == start) || ltb (sub64 size start) frame.frame_len))
        ≡ false
      → (20 ≤ frame.frame_len) × ((frame.file_offset ≡ start) × (start + frame.frame_len ≤ size))
  checks_passed frame start le e = (ground arith, (ground arith, ground arith))

  round :
      (n i start end : ℕ)
      → start ≤ size
      → validate_frames file size (suc n) i start ≡ some end
      → Round n i start end
  unfolding validate_frames
  round n i start end le e = elim (Option-cases (index_pread_frame file i)) [
    | inl bad ↦ let wrong = rw (bad, validate_frames) at e in cc
    | inr (frame, read) ↦
        elim (Bool-cases (
          ltb frame.frame_len 20
          || (not (frame.file_offset == start) || ltb (sub64 size start) frame.frame_len))) [
            | inl bad ↦ let wrong = rw (read, bad, validate_frames) at e in cc
            | inr good ↦
                let (long, (placed, fits)) = checks_passed frame start le good in
                let next : (start + frame.frame_len) % 2 ^ 64 ≡ start + frame.frame_len =
                  omega arith in
                record {
                  frame = frame;
                  read = read;
                  long = long;
                  placed = placed;
                  fits = fits;
                  rest =
                      ap (λ t. validate_frames file size n (suc i) t) (sym next)
                      ∙ rw (read, good, validate_frames) at e;
                }
          ]
  ]

  pub validate_frames-end :
      (n i start end : ℕ)
      → start ≤ size
      → validate_frames file size n i start ≡ some end
      → (start ≤ end) × (end ≤ size)
  unfolding validate_frames
  validate_frames-end zero i start end le e =
      let same = some-injective start end e in (omega arith, omega arith)
  validate_frames-end (suc n) i start end le e =
      let r = round n i start end le e in
      let (a, b) = validate_frames-end n (suc i) (start + r.frame.frame_len) end r.fits r.rest in
      (omega arith, b)

  pub validate_frames-Placed :
      (n i start end j : ℕ)
      → start ≤ size
      → validate_frames file size n i start ≡ some end
      → i ≤ j
      → j < i + n
      → Placed file start end j
  validate_frames-Placed zero i start end j le e lo hi = absurd (omega arith)
  validate_frames-Placed (suc n) i start end j le e lo hi =
      let r = round n i start end le e in
      elim (dec_lt i j) [
        | no here ↦
            let same : i ≡ j = omega arith in
            let (a, b) =
              validate_frames-end n (suc i) (start + r.frame.frame_len) end r.fits r.rest in
            record {
              frame = r.frame;
              read = ap (index_pread_frame file) (sym same) ∙ r.read;
              long = r.long;
              after = omega (arith, r.placed);
              before = omega (arith, r.placed);
            }
        | yes later ↦
            let p =
              validate_frames-Placed n (suc i) (start + r.frame.frame_len) end j r.fits r.rest
                (omega arith) (omega arith) in
            record {
              frame = p.frame;
              read = p.read;
              long = p.long;
              after = omega (arith, p.after);
              before = p.before;
            }
      ]

  -- Of two frames of the index, the earlier ends before the later begins.
  pub validate_frames-ordered :
      (n i start end j k : ℕ) (f g : IndexFrame)
      → start ≤ size
      → validate_frames file size n i start ≡ some end
      → i ≤ j
      → j < k
      → k < i + n
      → Reads file j f
      → Reads file k g
      → f.file_offset + f.frame_len ≤ g.file_offset
  validate_frames-ordered zero i start end j k f g le e lo lt hi rf rg = absurd (omega arith)
  validate_frames-ordered (suc n) i start end j k f g le e lo lt hi rf rg =
      let r = round n i start end le e in
      elim (dec_lt i j) [
        | yes later ↦
            validate_frames-ordered n (suc i) (start + r.frame.frame_len) end j k f g r.fits r.rest
              (omega arith) lt (omega arith) rf rg
        | no here ↦
            let p =
              validate_frames-Placed n (suc i) (start + r.frame.frame_len) end k r.fits r.rest
                (omega arith) (omega arith) in
            let same : i ≡ j = omega arith in
            let ef : r.frame ≡ f =
              some-injective _ _ (sym r.read ∙ ap (index_pread_frame file) same ∙ rf) in
            let eg : p.frame ≡ g = some-injective _ _ (sym p.read ∙ rg) in
            omega (
              arith,
              r.placed,
              p.after,
              ap (λ (x : IndexFrame). x.file_offset) ef,
              ap (λ (x : IndexFrame). x.frame_len) ef,
              ap (λ (x : IndexFrame). x.file_offset) eg,
            )
      ]
