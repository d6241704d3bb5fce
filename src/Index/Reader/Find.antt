-- ===== src/Index/Reader/Find.antt =====
-- The searches of an index that was opened: by time and by offset.
use recorder.Common.{
  ℕ, suc, ◌-◌, ◌^◌, ◌<◌, ◌≤◌, ◌≡◌, refl, sym, ap, ◌∙◌, subst, arith, inl, inr, ◌⊎◌,
}
use recorder.Common.{some, List, le→ltb_false, lt→ltb, eq→==, ok}
use mathlib.Core.Option.{some-injective}
use native.Mathlib.Decide.{dec_lt}
use recorder.Segment.{SegmentHeader}
use recorder.Index.{IndexFrame}
use recorder.Index.Reader.{
  index_pread_frame, index_open_read, bisect, found, no_match, frame_from, find_frame,
  index_find_offset_frame,
}
use recorder.Index.Reader.Contiguous.{Reads}
use recorder.Index.Reader.Opened.{index_open_read-contiguous}
use recorder.Index.Reader.Search.{Below, Reaches, Landed, bisect-Landed}

-- The field does not fall along the index.
abbrev pub Sorted : List ℕ → ℕ → (IndexFrame → ℕ) → Type 0
Sorted file count field =
    (i j : ℕ) (f g : IndexFrame)
    → i ≤ j
    → j < count
    → Reads file i f
    → Reads file j g
    → field f ≤ field g

module _ (file : List ℕ) (header : SegmentHeader) (start size count : ℕ) (le : start ≤ size)
    (small : size < 2 ^ 64)
    (opened : index_open_read file (some (header, start, size)) ≡ ok count) where
  readable : (i : ℕ) → i < count → (f : IndexFrame) × Reads file i f
  readable i h =
      let (end, (placed, more)) =
        index_open_read-contiguous file header start size count le small opened in
      let p = placed i h in (p.frame, p.read)

  -- The search by time ends at a place where the field passes the target: at a frame, or past the last.
  find_frame-lands :
      (field : IndexFrame → ℕ) (usec : ℕ)
      → (r : ℕ) × (Landed file field usec 0 count r
          × (find_frame file (some (header, start, size)) field usec
              ≡ frame_from file count (some r)))
  unfolding find_frame
  find_frame-lands field usec =
      let (r, (e, l)) =
        bisect-Landed file field usec count 0 count (omega arith) (omega arith) readable in
      (r, (l, rw (opened, e, find_frame) refl))

  -- In an index that was opened, for a segment of less than 2^64 bytes whose frames start within
  -- the file, the search by a field ends at a boundary even where that field is not sorted: the
  -- frame just before it is below the time, and either the boundary is the end and the result is
  -- that no frame matches, or the frame at the boundary reaches the time and is the result.
  pub find_frame-boundary :
      (field : IndexFrame → ℕ) (usec : ℕ)
      → (r : ℕ) × (((k : ℕ) → suc k ≡ r → Below file field usec k)
          × (((r ≡ count) × (find_frame file (some (header, start, size)) field usec ≡ no_match))
              ⊎ ((r < count)
                  × ((x : Reaches file field usec r) × (find_frame file
                          (some (header, start, size))
                          field
                          usec
                        ≡ found x.frame r)))))
  find_frame-boundary field usec =
      let (r, (l, e)) = find_frame-lands field usec in
      (
        r,
        (
          λ k same. l.before k same (omega arith),
          elim (dec_lt r count) [
            | no past ↦ inl (
              omega (arith, l.most),
              e ∙ unfold frame_from in rw (le→ltb_false r count (omega arith), frame_from) refl,
            )
            | yes within ↦
                let x = l.here within in
                inr (
                  within,
                  (x, e ∙ unfold frame_from in rw (lt→ltb r count within, x.read, frame_from) refl),
                )
          ],
        ),
      )

  -- In an index that was opened, for a segment of less than 2^64 bytes whose frames start within
  -- the file, if the searched field does not fall along the index, then for every frame whose
  -- field reaches the time the search by that field finds a frame that is not behind it, and
  -- whose field reaches the time.
  pub find_frame-first :
      (field : IndexFrame → ℕ) (usec i : ℕ) (f : IndexFrame)
      → Sorted file count field
      → i < count
      → Reads file i f
      → usec ≤ field f
      → (r : ℕ) × ((r ≤ i)
          × ((x : Reaches file field usec r) × (find_frame file
                  (some (header, start, size))
                  field
                  usec
                ≡ found x.frame r)))
  find_frame-first field usec i f sorted h read reach =
      let (r, (before, outcome)) = find_frame-boundary field usec in
      let early : r ≤ i = elim (dec_lt i r) [
        | no fine ↦ omega arith
        | yes late ↦
            let b = before (r - 1) (omega arith) in
            let grows =
              sorted i (r - 1) f b.frame (omega arith) (last_below r late outcome) read b.read in
            absurd (omega (arith, b.below))
      ] in
      elim outcome [
        | inl (end, none_found) ↦ absurd (omega arith)
        | inr (within, (x, e)) ↦ (r, (early, (x, e)))
      ]
    where
      last_below :
          (r : ℕ)
          → i < r
          → ((r ≡ count) × (find_frame file (some (header, start, size)) field usec ≡ no_match))
            ⊎ ((r < count)
                × ((x : Reaches file field usec r) × (find_frame file
                        (some (header, start, size))
                        field
                        usec
                      ≡ found x.frame r)))
          → r - 1 < count
      last_below r late (inl (end, e)) = omega arith
      last_below r late (inr (within, e)) = omega arith

  -- In an index that was opened, for a segment of less than 2^64 bytes whose frames start within
  -- the file, the search by offset finds every frame by the offset it starts at, with its index.
  pub index_find_offset_frame_lem :
      (i : ℕ) (f : IndexFrame)
      → i < count
      → Reads file i f
      → index_find_offset_frame file (some (header, start, size)) f.file_offset ≡ found f i
  unfolding index_find_offset_frame
  index_find_offset_frame_lem i f h read =
      let (end, (placed, (ordered, fits))) =
        index_open_read-contiguous file header start size count le small opened in
      let (r, (e, l)) =
        bisect-Landed file (λ x. x.file_offset) f.file_offset count 0 count (omega arith)
          (omega arith) readable in
      let same : r ≡ i = elim (dec_lt r i) [
        | yes early ↦
            let x = l.here (omega arith) in
            let p = placed r (omega arith) in
            let long : 20 ≤ x.frame.frame_len =
              subst (λ (y : IndexFrame). 20 ≤ y.frame_len)
                (some-injective _ _ (sym p.read ∙ x.read)) p.long in
            absurd (omega (arith, ordered r i x.frame f early h x.read read, x.reaches))
        | no late ↦ elim (dec_lt i r) [
          | no at ↦ omega arith
          | yes over ↦
              let b = l.before (r - 1) (omega arith) (omega arith) in
              elim (dec_lt i (r - 1)) [
                | yes more ↦ absurd (
                    omega (
                      arith,
                      ordered i (r - 1) f b.frame more (omega (arith, l.most)) read b.read,
                      b.below,
                    ))
                | no here ↦
                    let eq : r - 1 ≡ i = omega arith in
                    let frames : b.frame ≡ f =
                      some-injective _ _ (sym b.read ∙ ap (index_pread_frame file) eq ∙ read) in
                    absurd (omega (arith, b.below, ap (λ (y : IndexFrame). y.file_offset) frames))
              ]
        ]
      ] in
      let at_i : bisect file (λ x. x.file_offset) f.file_offset count 0 count ≡ some i =
        e ∙ ap some same in
      rw
        (
          opened,
          at_i,
          read,
          lt→ltb i count h,
          eq→== f.file_offset f.file_offset refl,
          index_find_offset_frame,
        )
        refl
