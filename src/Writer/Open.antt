-- ===== src/Writer/Open.antt =====
-- src/recorder.c: `writer_open_segment` from the header on, and as a whole.
use recorder.Common.{ℕ, ◌+◌, ◌%◌, ◌^◌, true, false, not, none, some}
use recorder.Common.{List, get_elem?}
use recorder.Common.{if◌then◌else◌, Step, give_up, ◌⨟◌}
use recorder.Segment.{SegmentHeader}
use recorder.Config.{RecorderConfig, PriorityGroup, config_uses_full_entries}
use recorder.Paths.{build_segment_dir}
use recorder.Writer.{
  Os, Recorder, Site, LogEntry, with_stream, flush_and_sync_file, monotonic_now_sec,
  current_timezone_string, persist_next_segment_seq,
}
use recorder.Writer.Close.{on_writer}
use recorder.Writer.Create.{
  drop_and_unlink, drop_index, drop_index_and_unlink, or_else, outside, name_segment, create_file,
  create_encryptor, header_of, with_dictionary, put_header, open_index,
}

module _ (os : Os) where
  unfoldable pub rename_file : Step (Site os)
  rename_file s = outside os (os.rename s.writer.tmp_path s.writer.path) s

  -- The segment gets its name only once its header is on the disk.
  unfoldable pub publish : List ℕ → Step (Site os)
  publish dir =
      or_else os (flush_and_sync_file os) (drop_index_and_unlink os)
      ⨟ (or_else os rename_file (drop_index_and_unlink os)
          ⨟ or_else os (outside os (os.fsync_dir_path dir)) (drop_index os))

  unfoldable pub adopt_header : SegmentHeader → LogEntry → Step (Site os)
  adopt_header header entry s =
      let w = record s.writer {
        boot_id = header.boot_id;
        timezone = header.timezone;
        boot_seq = entry.boot_seq;
      } in
      (true, record s { writer = w })

  unfoldable pub first_position : Step (Site os)
  first_position = with_stream os (λ fp s. elim (os.ftello fp) [
    | none ↦ drop_index os (record s { writer = record s.writer { is_open = false } })
    | some pos ↦ (true, record s { writer = record s.writer { bytes_written = pos } })
  ])

  unfoldable pub start_segment :
      RecorderConfig → PriorityGroup → ℕ → LogEntry → List ℕ → Step (Site os)
  start_segment config group clock_jump_seq entry dict s =
      let (now, world) = monotonic_now_sec os s.world in
      (
        true,
        record {
          writer = record s.writer {
            entry_count = 0;
            first_realtime_ts = entry.realtime_ts;
            first_monotonic_ts = entry.monotonic_ts;
            previous_realtime_ts = entry.realtime_ts;
            max_realtime_ts = entry.realtime_ts;
            last_monotonic_ts = entry.monotonic_ts;
            realtime_nonmonotonic = false;
            clock_jump_seen_seq = clock_jump_seq;
            opened_mono_sec = now;
            last_chunk_flush_mono_sec = now;
            last_sync_mono_sec = now;
            unsynced_frames = 0;
            compress_enabled = config.compress_enabled;
            compress_min_frame_bytes = config.compress_min_frame_bytes;
            compress_if_smaller = config.compress_if_smaller;
            use_compact_entries = not (config_uses_full_entries config);
            durable_per_frame = group.durable_per_frame;
            durability_flush_frames = group.durability_flush_frames;
            durability_flush_interval_sec = group.durability_flush_interval_sec;
            dict_bytes = dict;
            is_open = true;
          };
          world = world;
        },
      )

  -- from the header to the open writer
  unfoldable pub write_segment :
      RecorderConfig → PriorityGroup → ℕ → List ℕ → LogEntry → List ℕ → List ℕ → Step (Site os)
  write_segment config group clock_jump_seq dir entry timezone dict s =
      let header = header_of os config entry s.writer timezone dict in
      (put_header os header dict
          ⨟ (open_index os header
              ⨟ (publish dir
                  ⨟ (adopt_header header entry
                      ⨟ (first_position ⨟ start_segment config group clock_jump_seq entry dict)))))
        s

  unfoldable pub create_segment :
      RecorderConfig → PriorityGroup → ℕ → List ℕ → ℕ → LogEntry → Step (Site os)
  create_segment config group clock_jump_seq dir seq entry =
      name_segment os seq
      ⨟ (create_file os
          ⨟ (or_else os (create_encryptor os config.encryption_public_key) (drop_and_unlink os)
              ⨟ (λ s.
                  let (timezone, world) = current_timezone_string os s.world in
                  with_dictionary os group.static_dict_path
                    (write_segment config group clock_jump_seq dir entry timezone)
                    (record s { world = world }))))

  -- The new number is stored before the file exists, so that it is used once.
  unfoldable pub take_number : ℕ → PriorityGroup → List ℕ → LogEntry → Step (Recorder os)
  take_number i group dir entry r =
      let seq = r.next_segment_seq in
      let next = (seq + 1) % 2 ^ 64 in
      let config = r.config in
      let jump = r.clock_jump_seq in
      on_writer os i
        ((λ s. (true, record s { writer = record s.writer { segment_seq = seq } }))
          ⨟ (outside os (persist_next_segment_seq os next)
              ⨟ create_segment config group jump dir seq entry))
        (record r { next_segment_seq = next })

  -- the directory of the group, then the segment in it
  unfoldable pub writer_open_segment : ℕ → LogEntry → Step (Recorder os)
  writer_open_segment i entry r = elim (get_elem? r.config.groups i) [
    | none ↦ give_up r
    | some group ↦ elim (get_elem? r.writers i) [
      | none ↦ give_up r
      | some w ↦ elim (build_segment_dir os.disk.log_dir 256 w.group_name) [
        | none ↦ give_up r
        | some dir ↦
            let (made, world) = os.mkdir_p dir r.world in
            let r' : Recorder os = record r { world = world } in
            if made then take_number i group dir entry r' else (false, r')
      ]
    ]
  ]
