-- ===== src/Writer/Flush/Stored.antt =====
-- src/recorder.c: a call of `writer_flush_chunk` that returned 0 with entries pending.
use recorder.Common.{ℕ, ◌+◌, ◌≤◌, ◌≡◌, refl, sym, ap, ◌∙◌, inl, inr, Bool, true}
use recorder.Common.{
  Result-cases, Option, none, some, is_some, Option-cases, on_some, give_up, List, ◌++◌, length,
  if◌then◌else◌, Step,
}
use mathlib.Core.Option.{some-injective}
use recorder.Segment.{SegmentHeader, SegmentFrameInfo, uint32_max}
use recorder.Segment.Frame.{segment_write_frame}
use recorder.Segment.Frame.RoundTrip.{Stored, encode_frame}
use recorder.Segment.Frame.Success.{Carries, segment_write_frame-ok}
use recorder.Index.Writer.{index_writer_append}
use recorder.Index.Writer.Append.{Indexed, index_writer_append-Indexed}
use recorder.Writer.{Os, PriorityWriter, Site, Stream, OpenIndex, with_stream, with_index}
use recorder.Writer.Flush.{
  put_frame, chunk_buffer, compress_chunk, flush_stream, append_index, note_position, stored_part,
  frame_info_of,
}

module _ (os : Os) where
  abbrev written : Stream os → List ℕ
  written = os.files.stdio.written

  -- what the segment's file holds so far
  abbrev pub output : PriorityWriter os → Option (List ℕ)
  output w = elim w.fp [ none ↦ none | some fp ↦ some (written fp) ]

  -- The segment has one frame more at its end, which holds the pending entries, compressed if that
  -- pays and encrypted if the writer has a key; and the index has one record more, that of the
  -- frame: its offset is where the frame begins, its length is the frame's, and its other fields
  -- are those of the frame.
  pub record Grown (b : os.Builder) (s s' : Site os) : Type 0 where
    pub chunk : List ℕ
    pub made : chunk_buffer os s.writer b ≡ some chunk
    pub old : List ℕ
    pub frame : Stored
    pub before : output s.writer ≡ some old
    pub after : output s'.writer ≡ some (old ++ encode_frame frame)
    pub flags : frame.flags ≡ (compress_chunk os s.writer chunk).1
    pub raw_size : frame.uncompressed_len ≡ length chunk
    pub carries :
        Carries os.crypto os.files.stdio s.writer.encryptor
          (stored_part os (compress_chunk os s.writer chunk).0)
          frame
    pub i : OpenIndex os
    pub i' : OpenIndex os
    pub index : s.writer.index_writer ≡ some i
    pub index' : s'.writer.index_writer ≡ some i'
    pub info : SegmentFrameInfo
    pub record_added :
        Indexed os.files os.reader s.writer.index_header info chunk i.writer i'.writer
    pub offset : info.file_offset ≡ length old
    pub frame_len : info.frame_len ≡ length (encode_frame frame)
    pub info_flags : info.flags ≡ frame.flags
    pub info_raw_size : info.uncompressed_len ≡ frame.uncompressed_len
    pub info_stored : info.stored_len ≡ length frame.payload
    pub position : s'.writer.bytes_written ≡ length (old ++ encode_frame frame)

  -- the rest of what the steps use
  pub record Side : Type 0 where
    pub index : Option (OpenIndex os)
    pub header : SegmentHeader
    pub sealed : Bool

  abbrev pub side : Site os → Side
  side s = record {
    index = s.writer.index_writer;
    header = s.writer.index_header;
    sealed = is_some s.writer.encryptor;
  }

  abbrev pub pair : Bool → Site os → Bool × Site os
  pair b s = (b, s)

  abbrev pub succeed : Site os → Bool × Site os
  succeed = pair true

  pub with_stream-done :
      (call : Stream os → Step (Site os)) (s : Site os)
      → (with_stream os call s).0 ≡ true
      → (fp : Stream os) × (s.writer.fp ≡ some fp) × (with_stream os call s ≡ call fp s)
  unfolding with_stream
  with_stream-done call s done = elim (Option-cases s.writer.fp) [
    | inl closed ↦ let wrong = rw closed at done in cc
    | inr (fp, opened) ↦ (fp, opened, on_some s.writer.fp fp (give_up s) _ opened)
  ]

  -- A frame was put at the end of the segment.
  pub record Put (stored : List ℕ) (flags n : ℕ) (s s1 : Site os) : Type 0 where
    pub old : List ℕ
    pub frame : Stored
    pub before : output s.writer ≡ some old
    pub after : output s1.writer ≡ some (old ++ encode_frame frame)
    pub flags_kept : frame.flags ≡ flags
    pub raw_size : frame.uncompressed_len ≡ n
    pub carries : Carries os.crypto os.files.stdio s.writer.encryptor (stored_part os stored) frame
    pub stored_size : length frame.payload ≡ length (stored_part os stored)
    pub same : side s1 ≡ side s
    pub size :
        length (encode_frame frame)
        ≡ 16 + length (stored_part os stored) + 4 + (if is_some s.writer.encryptor then 16 else 0)
    pub small : length (encode_frame frame) ≤ uint32_max

  pub put_frame-Put :
      (stored : List ℕ) (flags n : ℕ) (s : Site os)
      → (put_frame os stored flags n s).0 ≡ true
      → Put stored flags n s (put_frame os stored flags n s).1
  unfolding put_frame
  put_frame-Put stored flags n s done =
      let (fp, opened, run) = with_stream-done _ s done in
      let out =
        segment_write_frame os.crypto os.files.stdio s.writer.encryptor flags
          (stored_part os stored) n fp in
      let ran = rw run at done in
      elim (Result-cases out.result) [
        | inr (e, bad) ↦ let wrong = rw bad at ran in cc
        | inl (u, good) ↦
            let added =
              segment_write_frame-ok os.crypto os.files.stdio s.writer.encryptor flags n
                (stored_part os stored) fp good in
            let s1 : Site os = record s {
              writer = record s.writer { fp = some out.stream; encryptor = out.encryptor };
            } in
            let ended : put_frame os stored flags n s ≡ succeed s1 = run ∙ rw good refl in
            rw ended record {
              old = written fp;
              frame = added.frame;
              flags_kept = added.flags_kept;
              raw_size = added.raw_size;
              carries = added.carries;
              stored_size = added.stored_size;
              before = ap (λ o. output (record s.writer { fp = o })) opened;
              after = ap some added.bytes;
              same =
                  ap
                    (λ b. record {
                      index = s.writer.index_writer;
                      header = s.writer.index_header;
                      sealed = b;
                    })
                    added.kept;
              size = added.size;
              small = added.small;
            }
      ]

  pub flush_stream-done :
      (s : Site os)
      → (flush_stream os s).0 ≡ true
      → (output (flush_stream os s).1.writer ≡ output s.writer)
        × (side (flush_stream os s).1 ≡ side s)
  unfolding flush_stream
  flush_stream-done s done =
      let (fp, opened, run) = with_stream-done _ s done in
      rw run (
        ap some (os.fflush_written fp) ∙ sym (ap (λ o. output (record s.writer { fp = o })) opened),
        refl,
      )

  -- A record was put at the end of the index.
  pub record Noted (stored : List ℕ) (flags : ℕ) (raw : List ℕ) (offset : ℕ) (s s1 : Site os)
      : Type 0 where
    pub i : OpenIndex os
    pub i' : OpenIndex os
    pub index : s.writer.index_writer ≡ some i
    pub index' : s1.writer.index_writer ≡ some i'
    pub added :
        Indexed os.files os.reader s.writer.index_header
          (frame_info_of os s.writer stored flags (length raw) offset)
          raw
          i.writer
          i'.writer
    pub same : output s1.writer ≡ output s.writer

  pub append_index-Noted :
      (stored : List ℕ) (flags : ℕ) (raw : List ℕ) (offset : ℕ) (s : Site os)
      → (append_index os stored flags raw offset s).0 ≡ true
      → Noted stored flags raw offset s (append_index os stored flags raw offset s).1
  unfolding append_index with_index
  append_index-Noted stored flags raw offset s done = elim (Option-cases s.writer.index_writer) [
    | inl closed ↦ let wrong = rw closed at done in cc
    | inr (i, opened) ↦
        let info = frame_info_of os s.writer stored flags (length raw) offset in
        let r = index_writer_append os.files os.reader i.writer s.writer.index_header info raw in
        let i' : OpenIndex os = record i { writer = r.1 } in
        let s1 : Site os = record s { writer = record s.writer { index_writer = some i' } } in
        let run : append_index os stored flags raw offset s ≡ pair r.0 s1 =
          on_some s.writer.index_writer i (give_up s) _ opened in
        let ran : r.0 ≡ true = rw run at done in
        rw run record {
          i = i;
          i' = i';
          index = opened;
          index' = refl;
          added =
              index_writer_append-Indexed os.files os.reader i.writer s.writer.index_header info raw
                ran;
          same = refl;
        }
  ]

  pub note_position-done :
      (s : Site os) (all : List ℕ)
      → output s.writer ≡ some all
      → (note_position os s).0 ≡ true
      → ((note_position os s).1.writer.bytes_written ≡ length all)
        × ((output (note_position os s).1.writer ≡ output s.writer)
            × (side (note_position os s).1 ≡ side s))
  unfolding note_position
  note_position-done s all holds done =
      let (fp, opened, run) = with_stream-done _ s done in
      let ran = rw run at done in
      elim (Option-cases (os.ftello fp)) [
        | inl lost ↦ let wrong = rw lost at ran in cc
        | inr (pos, known) ↦
            let s1 : Site os = record s { writer = record s.writer { bytes_written = pos } } in
            let ended : note_position os s ≡ succeed s1 = run ∙ rw known refl in
            let same : written fp ≡ all =
              some-injective _ _
                (sym (ap (λ o. output (record s.writer { fp = o })) opened) ∙ holds) in
            rw ended (os.ftello_end fp pos known ∙ ap length same, (refl, refl))
      ]
