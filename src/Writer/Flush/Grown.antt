-- ===== src/Writer/Flush/Grown.antt =====
-- src/recorder.c: `writer_flush_chunk` as a whole, where it returned 0 with entries pending.
use recorder.Common.{ℕ, ◌+◌, ◌%◌, ◌^◌, ◌≤◌, ◌≡◌, refl, sym, ap, ◌∙◌, arith, inl, inr}
use recorder.Common.{
  Bool, true, false, Option-cases, some, is_some, List, ◌++◌, subst, length, length-take, ◌==◌,
  if◌then◌else◌, ◌⨟◌, seq-done,
}
use mathlib.Core.Option.{some-injective}
use recorder.Segment.{uint32_max}
use recorder.Index.Writer.Append.{Indexed}
use recorder.Segment.Frame.RoundTrip.{encode_frame}
use recorder.Writer.{Os, PriorityWriter, Site}
use recorder.Writer.Flush.{
  put_frame, flush_stream, append_index, note_position, count_frame, store_chunk, clear_chunk,
  write_pending, writer_flush_chunk, compress_chunk, chunk_buffer, stored_part, frame_info_of,
}
use recorder.Writer.Flush.Kept.{flush-pending}
use recorder.Writer.Flush.Stored.{
  Grown, Side, side, output, with_stream-done, put_frame-Put, flush_stream-done, append_index-Noted,
  note_position-done,
}
use recorder.Writer.Flush.Synced.{count_frame-Same}

module _ (os : Os) where
  frame_size :
      (stored : List ℕ) (flags n offset : ℕ) (w : PriorityWriter os) (size : ℕ)
      → size ≡ 16 + length (stored_part os stored) + 4 + (if is_some w.encryptor then 16 else 0)
      → size ≤ uint32_max
      → (frame_info_of os w stored flags n offset).frame_len ≡ size
  unfolding frame_info_of
  frame_size stored flags n offset w size e small =
      let tag : ℕ = if is_some w.encryptor then 16 else 0 in
      omega (arith, length-take (length stored % 2 ^ 32) stored)

  info_size :
      (stored : List ℕ) (flags n offset : ℕ) (w : PriorityWriter os) (size : ℕ)
      → size ≡ length (stored_part os stored)
      → (frame_info_of os w stored flags n offset).stored_len ≡ size
  unfolding frame_info_of
  info_size stored flags n offset w size e =
      omega (arith, length-take (length stored % 2 ^ 32) stored)

  store_chunk-Grown :
      (b : os.Builder) (raw : List ℕ) (s : Site os)
      → chunk_buffer os s.writer b ≡ some raw
      → (store_chunk os raw s).0 ≡ true
      → Grown os b s (store_chunk os raw s).1
  unfolding store_chunk frame_info_of
  store_chunk-Grown b raw s made done =
      let (fp, opened, run) = with_stream-done os _ s done in
      let ran = rw run at done in
      let (stored, flags) = compress_chunk os s.writer raw in
      let put = put_frame os stored flags (length raw) in
      let append = append_index os stored flags raw in
      elim (Option-cases (os.ftello fp)) [
        | inl lost ↦ let wrong = rw lost at ran in cc
        | inr (offset, known) ↦
            let rest3 = note_position os ⨟ count_frame os in
            let rest2 = append offset ⨟ rest3 in
            let all = rw known at ran in
            let (d1, (r1, e1)) = seq-done put (flush_stream os ⨟ rest2) s all in
            let s1 = (put s).1 in
            let (d2, (r2, e2)) = seq-done (flush_stream os) rest2 s1 r1 in
            let s2 = (flush_stream os s1).1 in
            let (d3, (r3, e3)) = seq-done (append offset) rest3 s2 r2 in
            let s3 = (append offset s2).1 in
            let (d4, (r4, e4)) = seq-done (note_position os) (count_frame os) s3 r3 in
            let s4 = (note_position os s3).1 in
            let ended : store_chunk os raw s ≡ count_frame os s4 =
              run ∙ (rw known refl) ∙ e1 ∙ e2 ∙ e3 ∙ e4 in
            let p = put_frame-Put os stored flags (length raw) s d1 in
            let (bytes2, side2) = flush_stream-done os s1 d2 in
            let n = append_index-Noted os stored flags raw offset s2 d3 in
            let same2 : side os s2 ≡ side os s = side2 ∙ p.same in
            let all3 : output os s3.writer ≡ some (p.old ++ encode_frame p.frame) =
              n.same ∙ bytes2 ∙ p.after in
            let (position4, (bytes4, side4)) = note_position-done os s3 _ all3 d4 in
            let c = count_frame-Same os s4 in
            let old : os.files.stdio.written fp ≡ p.old =
              some-injective _ _
                (sym (ap (λ o. output os (record s.writer { fp = o })) opened) ∙ p.before) in
            rw ended record {
              chunk = raw;
              made = made;
              flags = p.flags_kept;
              raw_size = p.raw_size;
              carries = p.carries;
              info_flags = sym p.flags_kept;
              info_raw_size = sym p.raw_size;
              info_stored =
                  info_size stored flags (length raw) offset s2.writer (length p.frame.payload)
                    p.stored_size;
              old = p.old;
              frame = p.frame;
              before = p.before;
              after = c.bytes ∙ bytes4 ∙ all3;
              i = n.i;
              i' = n.i';
              index = sym (ap (λ (z : Side os). z.index) same2) ∙ n.index;
              index' = c.index ∙ ap (λ (z : Side os). z.index) side4 ∙ n.index';
              info = frame_info_of os s2.writer stored flags (length raw) offset;
              record_added =
                  subst
                    (λ h.
                      Indexed os.files os.reader h
                        (frame_info_of os s2.writer stored flags (length raw) offset) raw n.i.writer
                        n.i'.writer)
                    (ap (λ (z : Side os). z.header) same2) n.added;
              offset = os.ftello_end fp offset known ∙ ap length old;
              frame_len =
                  frame_size stored flags (length raw) offset s2.writer
                    (length (encode_frame p.frame))
                    (p.size
                      ∙ ap
                          (λ (z : Side os).
                            16 + length (stored_part os stored) + 4 + (if z.sealed then 16 else 0))
                          (sym same2))
                    p.small;
              position = c.position ∙ position4;
            }
      ]

  clear-Grown :
      (b : os.Builder) (s : Site os) (r : Bool × Site os)
      → Grown os b s r.1
      → Grown os b s (clear_chunk os r).1
  unfolding clear_chunk
  clear-Grown b s r g = record {
    made = g.made;
    flags = g.flags;
    raw_size = g.raw_size;
    carries = g.carries;
    info_flags = g.info_flags;
    info_raw_size = g.info_raw_size;
    info_stored = g.info_stored;
    old = g.old;
    frame = g.frame;
    before = g.before;
    after = g.after;
    i = g.i;
    i' = g.i';
    index = g.index;
    index' = g.index';
    info = g.info;
    chunk = g.chunk;
    record_added = g.record_added;
    offset = g.offset;
    frame_len = g.frame_len;
    position = g.position;
  }

  -- If `writer_flush_chunk` returns 0 with entries pending, then the segment file has exactly one
  -- whole frame more at its end. The frame says the size of the finished buffer of the pending
  -- entries and whether it was compressed, and it holds that buffer, compressed where the writer
  -- compresses, and encrypted under the next nonce where the writer has a key. The index file has
  -- one whole record more, which is that of this frame: its offset is where the frame begins, its
  -- length is the number of bytes that the frame added, and its flags and sizes are those of the
  -- frame. `bytes_written` is the new length of the segment file.
  pub writer_flush_chunk-Grown :
      (s : Site os) (b : os.Builder)
      → s.writer.builder ≡ some b
      → (length s.writer.entries == 0) ≡ false
      → (writer_flush_chunk os s).0 ≡ true
      → Grown os b s (writer_flush_chunk os s).1
  unfolding write_pending clear_chunk
  writer_flush_chunk-Grown s b live pending done =
      let ran = rw (flush-pending os s b live pending) at done in
      rw (flush-pending os s b live pending) (elim (Option-cases (chunk_buffer os s.writer b)) [
        | inl failed ↦ let wrong = rw (failed, write_pending) at ran in cc
        | inr (raw, made) ↦
            let stored : (store_chunk os raw s).0 ≡ true = rw (made, write_pending) at ran in
            rw (made, write_pending)
              (clear-Grown b s (store_chunk os raw s) (store_chunk-Grown b raw s made stored))
      ])
