-- ===== src/Writer/Flush/Kept.antt =====
-- src/recorder.c: what `writer_flush_chunk` does to the writer on every branch.
use recorder.Common.{
  ℕ, ◌≡◌, refl, ◌∙◌, arith, inl, inr, Bool, true, false, Bool-cases, Result-cases,
}
use recorder.Common.{
  Option, none, some, is_some, Option-cases, on_some, List, [], ◌∷◌, length, ◌==◌, Step, ◌⨟◌,
  seq-keeps,
}
use recorder.Segment.Frame.{segment_write_frame}
use recorder.Writer.{
  Os, PriorityWriter, Site, Stream, with_stream, with_index, monotonic_now_sec, flush_and_sync_file,
}
use recorder.Writer.Flush.{
  put_frame, flush_stream, append_index, note_position, sync_now, sync_due, count_frame,
  store_chunk, clear_chunk, write_pending, writer_flush_chunk, compress_chunk, chunk_buffer,
  stored_part, interval_over,
}

-- what a writer knows of its segment and its entries
pub record Facts : Type 0 where
  pub is_open : Bool
  pub segment_seq : ℕ
  pub boot_id : List ℕ
  pub timezone : List ℕ
  pub clock_jump_seen_seq : ℕ
  pub entry_count : ℕ
  pub first_realtime_ts : ℕ
  pub previous_realtime_ts : ℕ
  pub max_realtime_ts : ℕ
  pub last_monotonic_ts : ℕ
  pub realtime_nonmonotonic : Bool
  pub has_stream : Bool
  pub has_index : Bool

module _ (os : Os) where
  abbrev pub facts : PriorityWriter os → Facts
  facts w = record {
    is_open = w.is_open;
    segment_seq = w.segment_seq;
    boot_id = w.boot_id;
    timezone = w.timezone;
    clock_jump_seen_seq = w.clock_jump_seen_seq;
    entry_count = w.entry_count;
    first_realtime_ts = w.first_realtime_ts;
    previous_realtime_ts = w.previous_realtime_ts;
    max_realtime_ts = w.max_realtime_ts;
    last_monotonic_ts = w.last_monotonic_ts;
    realtime_nonmonotonic = w.realtime_nonmonotonic;
    has_stream = is_some w.fp;
    has_index = is_some w.index_writer;
  }

  abbrev pub Keeps : Site os → Site os → Type 0
  Keeps s s' = facts s'.writer ≡ facts s.writer

  Keeps_trans : (a b c : Site os) → Keeps a b → Keeps b c → Keeps a c
  Keeps_trans a b c p q = q ∙ p

  chain :
      (f g : Step (Site os)) (s : Site os)
      → Keeps s (f s).1
      → ((s' : Site os) → Keeps s' (g s').1)
      → Keeps s ((f ⨟ g) s).1
  chain = seq-keeps Keeps Keeps_trans

  with_stream-Keeps :
      (call : Stream os → Step (Site os)) (s : Site os)
      → ((fp : Stream os) → s.writer.fp ≡ some fp → Keeps s (call fp s).1)
      → Keeps s (with_stream os call s).1
  unfolding with_stream
  with_stream-Keeps call s h = go s.writer.fp refl
    where
      go :
          (o : Option (Stream os))
          → s.writer.fp ≡ o
          → Keeps s (elim o as (λ x. Bool × Site os) [ none ↦ (false, s) | some fp ↦ call fp s ]).1
      go none e = refl
      go (some fp) e = h fp e

  put_frame-Keeps :
      (stored : List ℕ) (flags n : ℕ) (s : Site os) → Keeps s (put_frame os stored flags n s).1
  unfolding put_frame
  put_frame-Keeps stored flags n s = with_stream-Keeps _ s (λ fp opened.
      let out =
        segment_write_frame os.crypto os.files.stdio s.writer.encryptor flags
          (stored_part os stored) n fp in
      elim (Result-cases out.result) [
        | inl (u, good) ↦ rw good (rw opened refl)
        | inr (e, bad) ↦ rw bad (rw opened refl)
      ])

  flush_stream-Keeps : (s : Site os) → Keeps s (flush_stream os s).1
  unfolding flush_stream
  flush_stream-Keeps s = with_stream-Keeps _ s (λ fp opened. rw opened refl)

  append_index-Keeps :
      (stored : List ℕ) (flags : ℕ) (raw : List ℕ) (offset : ℕ) (s : Site os)
      → Keeps s (append_index os stored flags raw offset s).1
  unfolding append_index with_index
  append_index-Keeps stored flags raw offset s = elim (Option-cases s.writer.index_writer) [
    | inl closed ↦ rw closed refl
    | inr (i, opened) ↦ rw opened refl
  ]

  note_position-Keeps : (s : Site os) → Keeps s (note_position os s).1
  unfolding note_position
  note_position-Keeps s = with_stream-Keeps _ s (λ fp opened. elim (Option-cases (os.ftello fp)) [
    | inl lost ↦ rw lost refl
    | inr (pos, known) ↦ rw known refl
  ])

  pub flush_and_sync-Keeps : (s : Site os) → Keeps s (flush_and_sync_file os s).1
  unfolding flush_and_sync_file
  flush_and_sync-Keeps s = with_stream-Keeps _ s (λ fp opened. elim (Bool-cases (os.fflush fp).0) [
    | inl flushed ↦ rw flushed (rw opened refl)
    | inr failed ↦ rw failed (rw opened refl)
  ])

  sync_now-Keeps : (s : Site os) → Keeps s (sync_now os s).1
  unfolding sync_now
  sync_now-Keeps s = elim (Bool-cases (flush_and_sync_file os s).0) [
    | inl synced ↦ rw (synced, sync_now) (flush_and_sync-Keeps s)
    | inr failed ↦ rw (failed, sync_now) (flush_and_sync-Keeps s)
  ]

  pub sync_due-Keeps : (due : Bool) (s : Site os) → Keeps s (sync_due os due s).1
  unfolding sync_due
  sync_due-Keeps true s = sync_now-Keeps s
  sync_due-Keeps false s = elim (Bool-cases (s.writer.durability_flush_interval_sec == 0)) [
    | inl never ↦ rw (never, sync_due) refl
    | inr timed ↦ elim (Bool-cases (interval_over os s.writer (monotonic_now_sec os s.world).0)) [
      | inl over ↦ rw (timed, over, sync_due) (sync_now-Keeps _)
      | inr fresh ↦ rw (timed, fresh, sync_due) refl
    ]
  ]

  count_frame-Keeps : (s : Site os) → Keeps s (count_frame os s).1
  unfolding count_frame
  count_frame-Keeps s = sync_due-Keeps _ _

  store_chunk-Keeps : (raw : List ℕ) (s : Site os) → Keeps s (store_chunk os raw s).1
  unfolding store_chunk
  store_chunk-Keeps raw s = with_stream-Keeps _ s (λ fp opened. elim (Option-cases (os.ftello fp)) [
    | inl lost ↦ rw lost refl
    | inr (offset, known) ↦
        let (stored, flags) = compress_chunk os s.writer raw in
        let rest3 = note_position os ⨟ count_frame os in
        let rest2 = append_index os stored flags raw offset ⨟ rest3 in
        rw known (
          chain (put_frame os stored flags (length raw)) (flush_stream os ⨟ rest2) s
            (put_frame-Keeps stored flags (length raw) s)
            (λ s1. chain (flush_stream os) rest2 s1 (flush_stream-Keeps s1) (λ s2.
              chain (append_index os stored flags raw offset) rest3 s2
                (append_index-Keeps stored flags raw offset s2)
                (λ s3.
                  chain (note_position os) (count_frame os) s3 (note_position-Keeps s3)
                    count_frame-Keeps))))
  ])

  write_pending-Keeps : (b : os.Builder) (s : Site os) → Keeps s (write_pending os b s).1
  unfolding write_pending
  write_pending-Keeps b s = elim (Option-cases (chunk_buffer os s.writer b)) [
    | inl failed ↦ rw (failed, write_pending) refl
    | inr (raw, made) ↦ rw (made, write_pending) (store_chunk-Keeps raw s)
  ]

  nothing : (entries : List os.Ref) → (length entries == 0) ≡ true → entries ≡ []
  nothing [] e = refl
  nothing (x ∷ xs) e = absurd (ground arith)

  pub flush-pending :
      (s : Site os) (b : os.Builder)
      → s.writer.builder ≡ some b
      → (length s.writer.entries == 0) ≡ false
      → writer_flush_chunk os s ≡ clear_chunk os (write_pending os b s)
  unfolding writer_flush_chunk
  flush-pending s b live pending = on_some s.writer.builder b (true, s) _ live ∙ rw pending refl

  abbrev done : Site os → Bool × Site os
  done s = (true, s)

  pub flush-empty :
      (s : Site os) (b : os.Builder)
      → s.writer.builder ≡ some b
      → (length s.writer.entries == 0) ≡ true
      → writer_flush_chunk os s ≡ done s
  unfolding writer_flush_chunk
  flush-empty s b live empty = on_some s.writer.builder b (true, s) _ live ∙ rw empty refl

  -- Whether `writer_flush_chunk` succeeds or fails, with a live builder no entry is pending
  -- afterwards, and what the writer knows of its segment is as before: its number, boot and time
  -- zone, whether it is open, its stream and index, and the count and the time stamps of its
  -- entries. So a failed flush drops entries that the count still has.
  pub writer_flush_chunk-Keeps :
      (s : Site os) (b : os.Builder)
      → s.writer.builder ≡ some b
      → Keeps s (writer_flush_chunk os s).1
        × (◌≡◌ {A = List os.Ref} (writer_flush_chunk os s).1.writer.entries [])
  unfolding clear_chunk
  writer_flush_chunk-Keeps s b live = elim (Bool-cases (length s.writer.entries == 0)) [
    | inl empty ↦ rw (flush-empty s b live empty) (refl, nothing s.writer.entries empty)
    | inr pending ↦ rw (flush-pending s b live pending) (write_pending-Keeps b s, refl)
  ]
