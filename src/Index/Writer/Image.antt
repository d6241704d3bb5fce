-- ===== src/Index/Writer/Image.antt =====
-- The bytes of an index file that was written without an error.
use recorder.Common.{
  ℕ, suc, ◌+◌, ◌≡◌, refl, sym, ap, ap₂, ◌∙◌, arith, inl, inr, Bool, true, false, Bool-cases,
  Option-cases, none, some,
}
use recorder.Common.{
  List, [], ◌∷◌, ◌++◌, append_assoc, append-nil, length, take_all, map, if◌then◌else◌,
}
use mathlib.Core.Option.{some-injective}
use native.Mathlib.Decide.{dec_lt}
use recorder.Stdio.{write_all, write_all-Wrote}
use recorder.Segment.{SegmentHeader, SegmentFrameInfo}
use recorder.Index.{IndexFrame}
use recorder.Index.Summary.{ChunkReader, chunk_entries, summarize}
use recorder.Index.Record.{encode_index_frame}
use recorder.Index.Writer.{
  IndexStdio, IndexWriter, encode_index_header, encode_index_footer, index_writer_open,
  index_writer_append, index_writer_close, append_all, rebuild_index, store_all, record_parts,
}

-- one byte string after the other
abbrev pub concat : List (List ℕ) → List ℕ
concat [] = []
concat (p ∷ ps) = p ++ concat ps

-- header and records
abbrev pub index_body : ℕ → ℕ → List IndexFrame → List ℕ
index_body segment_seq flags records =
    encode_index_header segment_seq flags ++ concat (map encode_index_frame records)

-- a closed index file
abbrev pub index_image : ℕ → ℕ → List IndexFrame → ℕ → List ℕ
index_image segment_seq flags records committed_end =
    let body = index_body segment_seq flags records in
    body ++ encode_index_footer (length records) committed_end body

pub concat_record :
    (f : IndexStdio) (reader : ChunkReader) (r : IndexFrame)
    → concat (record_parts f reader r) ≡ encode_index_frame r
unfolding record_parts encode_index_frame
concat_record f reader r = refl

length-map : {A B : Type 0} (g : A → B) (xs : List A) → length (map g xs) ≡ length xs
length-map g [] = refl
length-map g (x ∷ xs) = ap suc (length-map g xs)

-- Two steps that both have to succeed did so.
both_done :
    {A : Type 0} (a b : Bool) (x y : A)
    → (if a then (if b then some x else none) else none) ≡ some y
    → (a ≡ true) × ((b ≡ true) × (x ≡ y))
both_done true true x y e = (refl, (refl, some-injective x y e))
both_done true false x y e = cc
both_done false b x y e = cc

module _ (f : IndexStdio) (reader : ChunkReader) where
  sticky :
      (parts : List (List ℕ)) (fp : f.stdio.Stream)
      → f.ferror fp ≡ true
      → f.ferror (store_all f reader parts fp) ≡ true
  unfolding store_all
  sticky [] fp e = e
  sticky (p ∷ ps) fp e = sticky ps _ (f.ferror_sticky p fp e)

  -- Without an error at the end, every part was written.
  pub store_all-written :
      (parts : List (List ℕ)) (fp : f.stdio.Stream)
      → f.ferror (store_all f reader parts fp) ≡ false
      → f.stdio.written (store_all f reader parts fp) ≡ f.stdio.written fp ++ concat parts
  unfolding store_all
  store_all-written [] fp e = sym (append-nil _)
  store_all-written (p ∷ ps) fp e =
      store_all-written ps (f.stdio.fwrite p fp).1 e
      ∙ ap (λ t. t ++ concat ps)
          (f.stdio.fwrite_bytes p fp
            ∙ ap (λ t. f.stdio.written fp ++ t) (take_all (f.stdio.fwrite p fp).0 p full))
      ∙ append_assoc (f.stdio.written fp) p (concat ps)
    where
      full : (f.stdio.fwrite p fp).0 ≡ length p
      full = elim (dec_lt (f.stdio.fwrite p fp).0 (length p)) [
        | yes short ↦ let err = sticky ps _ (f.ferror_short p fp short) in cc
        | no whole ↦ omega (arith, f.stdio.fwrite_count p fp)
      ]

  -- the record of one frame
  abbrev record_of : SegmentHeader → SegmentFrameInfo × List ℕ → IndexFrame
  record_of header (frame, chunk) = summarize frame (chunk_entries reader header chunk)

  append_all-written :
      (header : SegmentHeader) (frames : List (SegmentFrameInfo × List ℕ))
      (w : IndexWriter f reader)
      → (append_all f reader header frames w).0 ≡ true
      → (f.stdio.written (append_all f reader header frames w).1.fp
          ≡ f.stdio.written w.fp ++ concat (map encode_index_frame (map (record_of header) frames)))
        × ((append_all f reader header frames w).1.record_count ≡ w.record_count + length frames)
  unfolding append_all index_writer_append
  append_all-written header [] w e = (sym (append-nil _), omega arith)
  append_all-written header ((frame, chunk) ∷ frames) w e =
      let r = summarize frame (chunk_entries reader header chunk) in
      let parts = record_parts f reader r in
      elim (Bool-cases (f.ferror (store_all f reader parts w.fp))) [
        | inl bad ↦ let wrong = rw bad at e in cc
        | inr good ↦
            let w' : IndexWriter f reader = record {
              fp = store_all f reader parts w.fp;
              record_count = w.record_count + 1;
            } in
            let (bytes, count) = append_all-written header frames w' (rw good at e) in
            rw good (
              bytes
                  ∙ ap (λ t. t ++ concat (map encode_index_frame (map (record_of header) frames)))
                      (store_all-written parts w.fp good
                        ∙ ap (λ t. f.stdio.written w.fp ++ t) (concat_record f reader r))
                  ∙ append_assoc (f.stdio.written w.fp) (encode_index_frame r) _,
              omega (arith, count),
            )
      ]

  -- A write that succeeded appended the whole.
  write_all_whole :
      (buf : List ℕ) (fp : f.stdio.Stream)
      → (write_all f.stdio buf fp).0 ≡ true
      → f.stdio.written (write_all f.stdio buf fp).1 ≡ f.stdio.written fp ++ buf
  write_all_whole buf fp e =
      let w = write_all-Wrote f.stdio buf fp in
      w.stored ∙ ap (λ t. f.stdio.written fp ++ t) (take_all w.count buf (w.whole e))

  index_writer_open-written :
      (seq flags : ℕ) (fp : f.stdio.Stream) (w : IndexWriter f reader)
      → index_writer_open f reader seq flags fp ≡ some w
      → (f.stdio.written w.fp ≡ f.stdio.written fp ++ encode_index_header seq flags)
        × (w.record_count ≡ 0)
  unfolding index_writer_open
  index_writer_open-written seq flags fp w e =
      elim (Bool-cases (write_all f.stdio (encode_index_header seq flags) fp).0) [
        | inr bad ↦ let wrong = rw bad at e in cc
        | inl good ↦
            let same = some-injective _ _ (rw good at e) in
            (
              ap (λ (x : IndexWriter f reader). f.stdio.written x.fp) (sym same)
                  ∙ write_all_whole (encode_index_header seq flags) fp good,
              ap (λ (x : IndexWriter f reader). x.record_count) (sym same),
            )
      ]

  index_writer_close-written :
      (w : IndexWriter f reader) (end : ℕ)
      → (index_writer_close f reader w end).0 ≡ true
      → f.stdio.written (index_writer_close f reader w end).1
        ≡ f.stdio.written w.fp ++ encode_index_footer w.record_count end (f.stdio.written w.fp)
  unfolding index_writer_close
  index_writer_close-written w end e = elim (Option-cases (f.reread w.fp)) [
    | inl bad ↦ let wrong = rw (bad, index_writer_close) at e in cc
    | inr (all, good) ↦
        rw (good, index_writer_close)
          (write_all_whole (encode_index_footer w.record_count end all) w.fp
              (rw (good, index_writer_close) at e)
            ∙ ap (λ t. f.stdio.written w.fp ++ encode_index_footer w.record_count end t)
                (f.reread_written w.fp all good))
  ]

  -- When an index is rebuilt into an empty file and every step succeeds, the file holds exactly
  -- the header, one record for each frame in order, and a footer with the number of records, the
  -- end of the segment and the CRC of all that precedes it.
  pub rebuild_index-written :
      (header : SegmentHeader) (frames : List (SegmentFrameInfo × List ℕ)) (end : ℕ)
      (fp fp' : f.stdio.Stream)
      → f.stdio.written fp ≡ []
      → rebuild_index f reader header frames end fp ≡ some fp'
      → f.stdio.written fp'
        ≡ index_image header.segment_seq header.flags (map (record_of header) frames) end
  unfolding rebuild_index
  rebuild_index-written header frames end fp fp' empty e =
      elim (Option-cases (index_writer_open f reader header.segment_seq header.flags fp)) [
        | inl bad ↦ let wrong = rw (bad, rebuild_index) at e in cc
        | inr (w, opened) ↦ rebuilt w opened (rw (opened, rebuild_index) at e)
      ]
    where
      rebuilt :
          (w : IndexWriter f reader)
          → index_writer_open f reader header.segment_seq header.flags fp ≡ some w
          → (let (appended, w') = append_all f reader header frames w in
              let (closed, s) = index_writer_close f reader w' end in
              if appended then (if closed then some s else none) else none)
            ≡ some fp'
          → f.stdio.written fp'
            ≡ index_image header.segment_seq header.flags (map (record_of header) frames) end
      rebuilt w opened done =
          let w' = (append_all f reader header frames w).1 in
          let s = index_writer_close f reader w' end in
          let records = map (record_of header) frames in
          let (appended, (closed, same)) =
            both_done (append_all f reader header frames w).0 s.0 s.1 fp' done in
          let (head, zero_count) =
            index_writer_open-written header.segment_seq header.flags fp w opened in
          let (body, count) = append_all-written header frames w appended in
          let whole : f.stdio.written w'.fp ≡ index_body header.segment_seq header.flags records =
            body
            ∙ ap (λ t. t ++ concat (map encode_index_frame records))
                (head ∙ ap (λ t. t ++ encode_index_header header.segment_seq header.flags) empty) in
          let counted : w'.record_count ≡ length records =
            omega (arith, count, zero_count, length-map (record_of header) frames) in
          ap f.stdio.written (sym same)
          ∙ index_writer_close-written w' end closed
          ∙ ap₂ (λ t n. t ++ encode_index_footer n end t) whole counted
