-- ===== src/Index/Writer.antt =====
-- src/index.c: `index_writer_open`, `index_writer_append` with `write_index_frame`, and
-- `index_writer_close`, over a stream that also tells of errors and can be read back.
pub mod Image
pub mod Append
use recorder.Common.{
  ℕ, ◌+◌, ◌%◌, ◌^◌, ◌<◌, ◌≡◌, Bool, true, false, Option, none, some, List, [], ◌∷◌, ◌++◌, length,
  get_or, if◌then◌else◌,
}
use recorder.Common.{Result, ok, err, unset}
use recorder.Bytes.{write_u32_le, write_u64_le, recorder_crc32}
use recorder.Stdio.{Stdio, write_all}
use recorder.Segment.{SegmentHeader, SegmentFrameInfo}
use recorder.Index.{IndexFrame, index_magic, index_footer_magic, index_version}
use recorder.Index.Summary.{ChunkReader, chunk_entries, summarize}
use recorder.Index.Record.{encode_index_frame}

unfoldable pub encode_index_header : ℕ → ℕ → List ℕ
encode_index_header segment_seq flags =
    index_magic ++ (write_u32_le index_version ++ (write_u64_le segment_seq ++ write_u32_le flags))

unfoldable pub encode_index_footer : ℕ → ℕ → List ℕ → List ℕ
encode_index_footer record_count segment_committed_end all =
    index_footer_magic
    ++ (write_u64_le record_count
        ++ (write_u64_le segment_committed_end ++ write_u32_le (recorder_crc32 all)))

-- `ferror` stays set once a write fell short; `reread` is fseek, ftell and fread of the whole file.
pub record IndexStdio : Type 1 where
  pub stdio : Stdio
  pub ferror : stdio.Stream → Bool
  pub reread : stdio.Stream → Option (List ℕ)
  pub ferror_short :
      (buf : List ℕ) (fp : stdio.Stream)
      → (stdio.fwrite buf fp).0 < length buf
      → ferror (stdio.fwrite buf fp).1 ≡ true
  pub ferror_sticky :
      (buf : List ℕ) (fp : stdio.Stream) → ferror fp ≡ true → ferror (stdio.fwrite buf fp).1 ≡ true
  pub reread_written :
      (fp : stdio.Stream) (all : List ℕ) → reread fp ≡ some all → all ≡ stdio.written fp

module _ (f : IndexStdio) (reader : ChunkReader) where
  pub record IndexWriter : Type 0 where
    pub fp : f.stdio.Stream
    pub record_count : ℕ

  -- `fp` is the file just created. A failed write removes it again.
  unfoldable pub index_writer_open : ℕ → ℕ → f.stdio.Stream → Option IndexWriter
  index_writer_open segment_seq flags fp =
      let (whole, fp') = write_all f.stdio (encode_index_header segment_seq flags) fp in
      if whole then some record { fp = fp'; record_count = 0 } else none

  -- The results of the writes are not looked at, only `ferror` at the end.
  unfoldable pub store_all : List (List ℕ) → f.stdio.Stream → f.stdio.Stream
  store_all [] fp = fp
  store_all (part ∷ parts) fp = store_all parts (f.stdio.fwrite part fp).1

  -- the writes of a record, one for each call
  unfoldable pub record_parts : IndexFrame → List (List ℕ)
  record_parts r =
      write_u64_le r.file_offset
      ∷ write_u32_le r.frame_len
      ∷ write_u64_le r.min_realtime_ts
      ∷ write_u64_le r.max_realtime_ts
      ∷ write_u64_le r.min_monotonic_ts
      ∷ write_u64_le r.max_monotonic_ts
      ∷ (r.priority ∷ [])
      ∷ write_u32_le r.entry_count
      ∷ (r.service_filter_kind ∷ [])
      ∷ write_u64_le (get_or r.service_hashes 0 0)
      ∷ write_u64_le (get_or r.service_hashes 1 0)
      ∷ write_u64_le (get_or r.service_hashes 2 0)
      ∷ write_u64_le (get_or r.service_hashes 3 0)
      ∷ (r.service_overflow ∷ [])
      ∷ []

  -- A record that fails is left in the file as far as it went, and is not counted.
  unfoldable pub index_writer_append :
      IndexWriter → SegmentHeader → SegmentFrameInfo → List ℕ → Bool × IndexWriter
  index_writer_append writer header frame chunk =
      let fp =
        store_all (record_parts (summarize frame (chunk_entries reader header chunk))) writer.fp in
      if f.ferror fp
      then (false, record writer { fp = fp })
      else (true, record { fp = fp; record_count = writer.record_count + 1 })

  -- The footer's CRC is that of the file as it is read back. The stream is closed in any case.
  unfoldable pub index_writer_close : IndexWriter → ℕ → Bool × f.stdio.Stream
  index_writer_close writer segment_committed_end = elim (f.reread writer.fp) [
    | none ↦ (false, writer.fp)
    | some all ↦
        write_all f.stdio (encode_index_footer writer.record_count segment_committed_end all)
          writer.fp
  ]

  -- A scan calls `append_index_frame_cb` for one frame after the other, up to a failure.
  unfoldable pub append_all :
      SegmentHeader → List (SegmentFrameInfo × List ℕ) → IndexWriter → Bool × IndexWriter
  append_all header [] writer = (true, writer)
  append_all header ((frame, chunk) ∷ frames) writer =
      let (done, writer') = index_writer_append writer header frame chunk in
      let rest = append_all header frames writer' in if done then rest else (false, writer')

  -- `index_rebuild_for_segment` from the opening of the new file to its closing, for a segment
  -- whose scan delivers `frames`
  unfoldable pub rebuild_index :
      SegmentHeader → List (SegmentFrameInfo × List ℕ) → ℕ → f.stdio.Stream → Option f.stdio.Stream
  rebuild_index header frames committed_end fp =
      elim (index_writer_open header.segment_seq header.flags fp) [
        | none ↦ none
        | some writer ↦
            let (appended, writer') = append_all header frames writer in
            let (closed, fp') = index_writer_close writer' committed_end in
            if appended then (if closed then some fp' else none) else none
      ]
