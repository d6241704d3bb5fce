-- ===== src/Writer/Submit.antt =====
-- src/recorder.c: `writer_should_rotate`, `recorder_ensure_writer`, `recorder_submit_entry`,
-- `recorder_submit_entry_with_recovery` and the writers' part of `recorder_flush_all`.
pub mod Fits
pub mod Ensured
pub mod Counted
use recorder.Common.{ℕ, ℤ, pos, negsuc, is_negative, ◌+◌, ◌-◌, ◌%◌, ◌^◌, zero, suc}
use recorder.Common.{Bool, true, false, not, ◌||◌, ◌&&◌, Option, none, some, bytes_eq}
use recorder.Common.{List, [], ◌∷◌, ◌++◌, length, get_elem?, get_or, ltb, leb, ◌==◌}
use recorder.Common.{if◌then◌else◌, Step, give_up, ◌⨟◌}
use recorder.Retention.{retention_reclaim_lower_priority}
use recorder.Config.{RecorderConfig}
use recorder.Writer.{
  Os, PriorityWriter, Recorder, Site, World, LogEntry, chunk_size, monotonic_now_sec,
  current_timezone_string, recorder_segment_limit,
}
use recorder.Writer.Entries.{serialize_entry, serialize_compact_entry, writer_builder}
use recorder.Writer.Flush.{writer_flush_chunk, writer_sync_if_due}
use recorder.Writer.Close.{on_writer, recorder_close_writer}
use recorder.Writer.Open.{writer_open_segment}

pub data RotateReason : Type 0 where
  reason_none reason_boot_id reason_timezone reason_clock_backward : RotateReason
  reason_clock_forward reason_age reason_size : RotateReason

pub record RotateDecision : Type 0 where
  pub reason : RotateReason
  pub delta_diff : ℤ

-- the numbers of the enumeration, which the footer stores
abbrev pub reason_number : RotateReason → ℕ
reason_number reason_none = 0
reason_number reason_boot_id = 1
reason_number reason_timezone = 2
reason_number reason_clock_backward = 3
reason_number reason_clock_forward = 4
reason_number reason_age = 5
reason_number reason_size = 6

abbrev pub is_none : RotateReason → Bool
is_none reason = reason_number reason == 0

abbrev pub clock_backward_jump_threshold_usec : ℕ
clock_backward_jump_threshold_usec = 1000

abbrev decide : RotateReason → RotateDecision
decide reason = record { reason = reason; delta_diff = pos 0 }

module _ (os : Os) where
  -- an entry older than the segment's first by more than the tolerated adjustment
  abbrev pub too_early : PriorityWriter os → LogEntry → Bool
  too_early w entry =
      ltb entry.realtime_ts w.first_realtime_ts
      && ltb clock_backward_jump_threshold_usec (w.first_realtime_ts - entry.realtime_ts)

  -- two boots, both of them known
  abbrev pub other_boot : PriorityWriter os → LogEntry → Bool
  other_boot w entry =
      not (length w.boot_id == 0)
      && (not (length entry.boot_id == 0) && not (bytes_eq w.boot_id entry.boot_id))

  -- the last two tests, of the age and the size
  unfoldable pub rotate_on_limits :
      RecorderConfig → PriorityWriter os → World os → RotateDecision × World os
  rotate_on_limits config w world =
      let (now, world') = monotonic_now_sec os world in
      let on_size = decide (
        if leb (recorder_segment_limit config) w.bytes_written then reason_size else reason_none) in
      if config.segment_max_age_sec == 0
      then (on_size, world)
      else (if leb config.segment_max_age_sec (now - w.opened_mono_sec)
          then (decide reason_age, world')
          else (on_size, world'))

  unfoldable pub writer_should_rotate :
      Recorder os → PriorityWriter os → LogEntry → RotateDecision × World os
  writer_should_rotate r w entry =
      let (timezone, world) = current_timezone_string os r.world in
      let jumped : RotateDecision = record {
        reason =
            if is_negative r.clock_jump_usec then reason_clock_backward else reason_clock_forward;
        delta_diff = r.clock_jump_usec;
      } in
      if not w.is_open
      then (decide reason_none, r.world)
      else if not (w.clock_jump_seen_seq == r.clock_jump_seq)
      then (jumped, r.world)
      else if too_early w entry
      then (record { reason = reason_clock_backward; delta_diff = negsuc 999 }, r.world)
      else if other_boot w entry
      then (decide reason_boot_id, r.world)
      else if not (bytes_eq w.timezone timezone)
      then (decide reason_timezone, world)
      else rotate_on_limits r.config w world

  unfoldable pub rotate_if_due : ℕ → PriorityWriter os → LogEntry → Step (Recorder os)
  rotate_if_due i w entry r =
      let (decision, world) = writer_should_rotate r w entry in
      let r' : Recorder os = record r { world = world } in
      if is_none decision.reason
      then (true, r')
      else recorder_close_writer os i (reason_number decision.reason) r'

  unfoldable pub open_if_closed : ℕ → LogEntry → Step (Recorder os)
  open_if_closed i entry r = elim (get_elem? r.writers i) [
    | none ↦ give_up r
    | some w ↦ if w.is_open then (true, r) else writer_open_segment os i entry r
  ]

  -- `config.priority_to_group[entry->priority]`, if it names a group
  unfoldable pub group_of : RecorderConfig → LogEntry → Option ℕ
  group_of config entry = elim (get_or config.priority_to_group entry.priority none) [
    | none ↦ none
    | some i ↦ if ltb i (length config.groups) then some i else none
  ]

  unfoldable pub ensure_group_writer : ℕ → LogEntry → Step (Recorder os)
  ensure_group_writer i entry r = elim (get_elem? r.writers i) [
    | none ↦ give_up r
    | some w ↦ (rotate_if_due i w entry ⨟ open_if_closed i entry) r
  ]

  unfoldable pub recorder_ensure_writer : LogEntry → Step (Recorder os)
  recorder_ensure_writer entry r = elim (group_of r.config entry) [
    | none ↦ give_up r
    | some i ↦ ensure_group_writer i entry r
  ]

  -- what is kept of the entries of a segment
  unfoldable pub note_entry : LogEntry → PriorityWriter os → PriorityWriter os
  note_entry entry w = record w {
    entry_count = (w.entry_count + 1) % 2 ^ 64;
    realtime_nonmonotonic = ltb entry.realtime_ts w.previous_realtime_ts || w.realtime_nonmonotonic;
    previous_realtime_ts = entry.realtime_ts;
    max_realtime_ts =
        if ltb w.max_realtime_ts entry.realtime_ts then entry.realtime_ts else w.max_realtime_ts;
    last_monotonic_ts = entry.monotonic_ts;
  }

  -- An entry that cannot be serialized is not counted, but the builder is live.
  unfoldable pub add_entry : LogEntry → Step (Site os)
  add_entry entry s =
      let b = writer_builder os s.writer in
      let (entry_ref, b') =
        if s.writer.use_compact_entries
        then serialize_compact_entry os b entry
        else serialize_entry os b entry in
      let w = record s.writer { builder = some b' } in
      elim entry_ref [
        | none ↦ (false, record s { writer = w })
        | some e ↦
            let w' = record w { entries = w.entries ++ (e ∷ []) } in
            (true, record s { writer = note_entry entry w' })
      ]

  unfoldable pub flush_if_full : Step (Site os)
  flush_if_full s =
      if length s.writer.entries == chunk_size then writer_flush_chunk os s else (true, s)

  unfoldable pub close_if_large : ℕ → Step (Recorder os)
  close_if_large i r = elim (get_elem? r.writers i) [
    | none ↦ give_up r
    | some w ↦
        if leb (recorder_segment_limit r.config) w.bytes_written
        then recorder_close_writer os i (reason_number reason_size) r
        else (true, r)
  ]

  unfoldable pub recorder_submit_entry : LogEntry → Step (Recorder os)
  recorder_submit_entry entry r = elim (group_of r.config entry) [
    | none ↦ give_up r
    | some i ↦
        (recorder_ensure_writer entry
            ⨟ (on_writer os i (add_entry entry ⨟ flush_if_full) ⨟ close_if_large i))
          r
  ]

  unfoldable pub required_bytes : RecorderConfig → ℕ
  required_bytes config =
      if ltb (recorder_segment_limit config) config.min_free_bytes
      then config.min_free_bytes
      else recorder_segment_limit config

  -- the number of segments that were removed, and the world without them
  unfoldable pub reclaim : ℕ → ℕ → Recorder os → ℕ × Recorder os
  reclaim priority required r =
      let run =
        retention_reclaim_lower_priority os.disk priority required (os.closed_segments r.world)
          r.world in
      (length run.log, record r { world = run.world })

  -- `errno` after the failed submission, on the stream of the entry's writer
  abbrev out_of_space : LogEntry → Recorder os → Bool
  out_of_space entry r = elim (group_of r.config entry) [
    | none ↦ os.no_space r.world none
    | some i ↦ elim (get_elem? r.writers i) [
      | none ↦ os.no_space r.world none
      | some w ↦ os.no_space r.world w.fp
    ]
  ]

  -- One more attempt, and only if the disk is full and something could be removed.
  unfoldable pub recorder_submit_entry_with_recovery : LogEntry → Step (Recorder os)
  recorder_submit_entry_with_recovery entry r =
      let required = required_bytes r.config in
      let r0 = if r.config.min_free_bytes == 0 then r else (reclaim entry.priority required r).1 in
      let (submitted, r1) = recorder_submit_entry entry r0 in
      let (removed, r2) = reclaim entry.priority required r1 in
      if submitted
      then (true, r1)
      else if out_of_space entry r1
      then (if removed == 0 then (false, r2) else recorder_submit_entry entry r2)
      else (false, r1)

  -- the loop of `recorder_flush_all` over the writers from `i` on
  unfoldable pub flush_writers : ℕ → ℕ → Step (Recorder os)
  flush_writers zero i r = (true, r)
  flush_writers (suc n) i r =
      (on_writer os i (writer_flush_chunk os ⨟ writer_sync_if_due os) ⨟ flush_writers n (suc i)) r
