-- ===== src/Index/Writer/Append.antt =====
-- src/index.c: a call of `index_writer_append` that returned 0.
use recorder.Common.{ℕ, ◌+◌, ◌≡◌, refl, ap, ◌∙◌, inl, inr, true, Bool-cases, List, ◌++◌}
use recorder.Segment.{SegmentHeader, SegmentFrameInfo}
use recorder.Index.Summary.{ChunkReader, chunk_entries, summarize}
use recorder.Index.Record.{encode_index_frame}
use recorder.Index.Writer.{IndexStdio, IndexWriter, index_writer_append, store_all, record_parts}
use recorder.Index.Writer.Image.{concat_record, store_all-written}

module _ (f : IndexStdio) (reader : ChunkReader) where
  -- The file has one record more, that of `frame`.
  pub record Indexed (header : SegmentHeader) (frame : SegmentFrameInfo) (chunk : List ℕ)
      (w w' : IndexWriter f reader) : Type 0 where
    pub bytes :
        f.stdio.written w'.fp
        ≡ f.stdio.written w.fp
          ++ encode_index_frame (summarize frame (chunk_entries reader header chunk))
    pub count : w'.record_count ≡ w.record_count + 1

  pub index_writer_append-Indexed :
      (w : IndexWriter f reader) (header : SegmentHeader) (frame : SegmentFrameInfo)
      (chunk : List ℕ)
      → (index_writer_append f reader w header frame chunk).0 ≡ true
      → Indexed header frame chunk w (index_writer_append f reader w header frame chunk).1
  unfolding index_writer_append
  index_writer_append-Indexed w header frame chunk done =
      let r = summarize frame (chunk_entries reader header chunk) in
      let parts = record_parts f reader r in
      elim (Bool-cases (f.ferror (store_all f reader parts w.fp))) [
        | inl bad ↦ let wrong = rw bad at done in cc
        | inr good ↦ rw good record {
          bytes =
              store_all-written f reader parts w.fp good
              ∙ ap (λ t. f.stdio.written w.fp ++ t) (concat_record f reader r);
          count = refl;
        }
      ]
