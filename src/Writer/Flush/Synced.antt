-- ===== src/Writer/Flush/Synced.antt =====
-- src/recorder.c: the sync at the end of `writer_flush_chunk` leaves the file's bytes alone.
use recorder.Common.{
  ◌+◌, ◌%◌, ◌^◌, ◌≡◌, refl, sym, ap, ◌∙◌, inl, inr, Bool, true, false, Bool-cases,
}
use recorder.Common.{Option, none, some, ◌==◌, Step}
use recorder.Writer.{Os, Site, Stream, with_stream, monotonic_now_sec, flush_and_sync_file}
use recorder.Writer.Flush.{sync_now, sync_due, count_frame, interval_over}
use recorder.Writer.Flush.Stored.{output}

module _ (os : Os) where
  pub record Same (s s1 : Site os) : Type 0 where
    pub bytes : output os s1.writer ≡ output os s.writer
    pub index : s1.writer.index_writer ≡ s.writer.index_writer
    pub position : s1.writer.bytes_written ≡ s.writer.bytes_written

  Same-refl : (s : Site os) → Same s s
  Same-refl s = record { bytes = refl; index = refl; position = refl }

  with_stream-Same :
      (call : Stream os → Step (Site os)) (s : Site os)
      → ((fp : Stream os) → s.writer.fp ≡ some fp → Same s (call fp s).1)
      → Same s (with_stream os call s).1
  unfolding with_stream
  with_stream-Same call s h = go s.writer.fp refl
    where
      go :
          (o : Option (Stream os))
          → s.writer.fp ≡ o
          → Same s (elim o as (λ x. Bool × Site os) [ none ↦ (false, s) | some fp ↦ call fp s ]).1
      go none e = Same-refl s
      go (some fp) e = h fp e

  flush_and_sync-Same : (s : Site os) → Same s (flush_and_sync_file os s).1
  unfolding flush_and_sync_file
  flush_and_sync-Same s = with_stream-Same _ s (λ fp opened.
      let kept =
        ap some (os.fflush_written fp)
        ∙ sym (ap (λ o. output os (record s.writer { fp = o })) opened) in
      elim (Bool-cases (os.fflush fp).0) [
        | inl flushed ↦ rw flushed record { bytes = kept; index = refl; position = refl }
        | inr failed ↦ rw failed record { bytes = kept; index = refl; position = refl }
      ])

  sync_now-Same : (s : Site os) → Same s (sync_now os s).1
  unfolding sync_now
  sync_now-Same s =
      let h = flush_and_sync-Same s in
      elim (Bool-cases (flush_and_sync_file os s).0) [
        | inl synced ↦
            rw (synced, sync_now) record { bytes = h.bytes; index = h.index; position = h.position }
        | inr failed ↦ rw (failed, sync_now) h
      ]

  sync_due-Same : (due : Bool) (s : Site os) → Same s (sync_due os due s).1
  unfolding sync_due
  sync_due-Same true s = sync_now-Same s
  sync_due-Same false s = elim (Bool-cases (s.writer.durability_flush_interval_sec == 0)) [
    | inl never ↦ rw (never, sync_due) (Same-refl s)
    | inr timed ↦ elim (Bool-cases (interval_over os s.writer (monotonic_now_sec os s.world).0)) [
      | inl over ↦
          let h = sync_now-Same (record s { world = (monotonic_now_sec os s.world).1 }) in
          rw (timed, over, sync_due)
            record { bytes = h.bytes; index = h.index; position = h.position }
      | inr fresh ↦
          rw (timed, fresh, sync_due) record { bytes = refl; index = refl; position = refl }
    ]
  ]

  pub count_frame-Same : (s : Site os) → Same s (count_frame os s).1
  unfolding count_frame
  count_frame-Same s =
      let unsynced = (s.writer.unsynced_frames + 1) % 2 ^ 32 in
      let h =
        sync_due-Same _ (record s { writer = record s.writer { unsynced_frames = unsynced } }) in
      record { bytes = h.bytes; index = h.index; position = h.position }
