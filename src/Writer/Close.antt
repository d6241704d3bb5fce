-- ===== src/Writer/Close.antt =====
-- src/recorder.c: `writer_close_segment` and `recorder_close_writer`.
use recorder.Common.{ℕ, true, false, Option, none, some, [], map, get_elem?, set}
use recorder.Common.{if◌then◌else◌, Step, give_up, ◌⨟◌, ok, err}
use recorder.Segment.{SegmentFooter}
use recorder.Segment.Footer.{segment_write_footer}
use recorder.Index.Writer.{index_writer_close}
use recorder.Retention.{GroupLimits, retention_enforce}
use recorder.Config.{RecorderConfig, PriorityGroup}
use recorder.Paths.{build_segment_dir}
use recorder.Writer.{
  Os, PriorityWriter, Recorder, Site, Stream, World, with_stream, with_index, flush_and_sync_file,
}
use recorder.Writer.Flush.{writer_flush_chunk}

abbrev pub footer_flag_realtime_nonmonotonic : ℕ
footer_flag_realtime_nonmonotonic = 2

module _ (os : Os) where
  unfoldable pub close_stream : Option (Stream os) → World os → World os
  close_stream none world = world
  close_stream (some fp) world = os.fclose fp world

  -- the end of the error paths
  unfoldable pub shut : Step (Site os)
  shut s = (
    false,
    record {
      writer = record s.writer { encryptor = none; fp = none; is_open = false };
      world = close_stream s.writer.fp s.world;
    },
  )

  unfoldable pub footer_of : PriorityWriter os → ℕ → SegmentFooter
  footer_of w rotation_reason = record {
    footer_flags = if w.realtime_nonmonotonic then footer_flag_realtime_nonmonotonic else 0;
    rotation_reason = rotation_reason;
    entry_count = w.entry_count;
    last_realtime_ts = w.max_realtime_ts;
    last_monotonic_ts = w.last_monotonic_ts;
    present = false;
  }

  unfoldable pub put_footer : ℕ → Step (Site os)
  put_footer rotation_reason = with_stream os (λ fp s.
      let (result, fp') =
        segment_write_footer os.crypto os.files.stdio (footer_of s.writer rotation_reason) fp in
      let s' : Site os = record s { writer = record s.writer { fp = some fp' } } in
      elim result [ ok u ↦ (true, s') | err e ↦ shut s' ])

  unfoldable pub sync_footer : Step (Site os)
  sync_footer s =
      let (synced, s') = flush_and_sync_file os s in if synced then (true, s') else shut s'

  -- A position that cannot be told leaves the count of bytes as it was.
  unfoldable pub final_position : Step (Site os)
  final_position = with_stream os (λ fp s. elim (os.ftello fp) [
    | none ↦ (true, s)
    | some pos ↦ (true, record s { writer = record s.writer { bytes_written = pos } })
  ])

  -- The index writer is gone in any case.
  unfoldable pub close_index : Step (Site os)
  close_index = with_index os (λ i s.
      let (closed, fp) = index_writer_close os.files os.reader i.writer s.writer.bytes_written in
      let s' : Site os = record {
        writer = record s.writer { index_writer = none };
        world = os.fclose fp s.world;
      } in
      if closed then (true, s') else shut s')

  unfoldable pub sync_dir : PriorityWriter os → World os → World os
  sync_dir w world = elim (build_segment_dir os.disk.log_dir 256 w.group_name) [
    | none ↦ world
    | some dir ↦ (os.fsync_dir_path dir world).1
  ]

  unfoldable pub closed_segment : Step (Site os)
  closed_segment s = (
    true,
    record {
      writer = record s.writer {
        encryptor = none;
        fp = none;
        is_open = false;
        boot_id = [];
        timezone = [];
        dict_bytes = [];
      };
      world = sync_dir s.writer (close_stream s.writer.fp s.world);
    },
  )

  unfoldable pub writer_close_segment : ℕ → Step (Site os)
  writer_close_segment rotation_reason s =
      if s.writer.is_open
      then (writer_flush_chunk os
            ⨟ (put_footer rotation_reason
                ⨟ (sync_footer ⨟ (final_position ⨟ (close_index ⨟ closed_segment)))))
          s
      else (true, s)

  -- a step on the writer `i`, which is put back into the array
  unfoldable pub on_writer : ℕ → Step (Site os) → Step (Recorder os)
  on_writer i call r = elim (get_elem? r.writers i) [
    | none ↦ give_up r
    | some w ↦
        let start : Site os = record { writer = w; world = r.world } in
        let (done, s) = call start in
        (done, record r { writers = set r.writers i s.writer; world = s.world })
  ]

  abbrev limits : PriorityGroup → GroupLimits
  limits g = record { max_bytes = g.max_bytes; max_age_sec = g.max_age_sec }

  -- `retention_enforce(r)`, with the closed segments that the directories hold
  unfoldable pub enforce : RecorderConfig → World os → World os
  enforce config world =
      (retention_enforce os.disk config.log_max_bytes (map limits config.groups) (os.time world)
        (os.closed_segments world) (os.store_bytes world) world).world

  unfoldable pub enforce_retention : Step (Recorder os)
  enforce_retention r = (true, record r { world = enforce r.config r.world })

  unfoldable pub recorder_close_writer : ℕ → ℕ → Step (Recorder os)
  recorder_close_writer i rotation_reason =
      on_writer i (writer_close_segment rotation_reason) ⨟ enforce_retention
