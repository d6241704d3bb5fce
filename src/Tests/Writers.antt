-- ===== src/Tests/Writers.antt =====
-- A writer of one group on streams and a disk that take everything.
use recorder.Common.{ℕ, pos, ◌+◌, ◌≤◌, ◌≡◌, refl, sym, arith, true, false, some, none}
use recorder.Common.{List, [], ◌∷◌, length, codes, All}
use mathlib.Core.Option.{some-injective}
use recorder.Segment.{has_flag}
use recorder.Config.{RecorderConfig, PriorityGroup}
use recorder.Writer.{Os, LogEntry, PriorityWriter, Recorder, Site}
use recorder.Writer.Flush.{writer_flush_chunk}
use recorder.Writer.Flush.Kept.{Keeps, writer_flush_chunk-Keeps}
use recorder.Writer.Flush.Stored.{Grown}
use recorder.Writer.Flush.Grown.{writer_flush_chunk-Grown}
use recorder.Writer.Close.{footer_of, footer_flag_realtime_nonmonotonic}
use recorder.Writer.Submit.{recorder_ensure_writer, group_of}
use recorder.Writer.Submit.Counted.{note_all, descends, Occurs, footer_of-note_all}
use recorder.Writer.Submit.Ensured.{Ready, recorder_ensure_writer-Ready}
use recorder.Writer.Flush.{
  clear_chunk, write_pending, chunk_buffer, store_chunk, put_frame, compress_chunk, flush_stream,
  append_index, note_position, count_frame, sync_due, frame_info_of,
}
use recorder.Writer.{
  with_stream, with_index, flush_and_sync_file, monotonic_now_sec, current_timezone_string,
  persist_next_segment_seq,
}
use recorder.Segment.Frame.{
  segment_write_frame, write_frame_parts, write_tag, write_plain_frame, encode_frame_header,
}
use recorder.Stdio.{write_all, write_nonempty}
use recorder.Index.Writer.{
  index_writer_append, index_writer_open, encode_index_header, store_all, record_parts,
}
use recorder.Paths.{
  build_segment_dir, join_path_component, join_path_suffix, build_state_segment_seq_path,
  build_segment_path, build_segment_tmp_path, build_index_path,
}
use recorder.Common.{decimal, decimal_digits}
use recorder.Writer.Open.{
  writer_open_segment, take_number, create_segment, write_segment, publish, rename_file,
  adopt_header, first_position, start_segment,
}
use recorder.Writer.Create.{
  name_segment, create_file, create_encryptor, use_dictionary, with_dictionary, put_header,
  create_index, open_index, or_else, header_of,
}
use recorder.Writer.Close.{on_writer, close_stream}
use recorder.Segment.Header.{
  segment_write_header, write_parts, encode_fixed, encode_body, encode_numbers, encode_times,
  c_field, strnlen,
}
use recorder.Writer.Submit.{
  ensure_group_writer, rotate_if_due, open_if_closed, writer_should_rotate,
}
use recorder.Config.{
  config_uses_full_entries, modifier_list_uses_full_entries, groups_use_full_entries,
}
use recorder.Tests.Fixtures.{toy_crypto, plain_header}
use recorder.Tests.IndexFiles.{index_io, two_entries}
use recorder.Tests.Retained.{toy_disk}

-- The world is a clock; a reference is a number, and a chunk is the list of its entries' references.
abbrev pub toy_os : Os
toy_os = record {
  crypto = toy_crypto;
  files = index_io;
  reader = two_entries;
  disk = toy_disk;
  rng = λ w. w;
  put_rng = λ g w. g;
  fopen = λ path w. (some [], w);
  fclose = λ fp w. w;
  fflush = λ fp. (true, fp);
  fsync = λ fp w. (true, w);
  ftello = λ fp. some (length fp);
  mkdir_p = λ path w. (true, w);
  rename = λ old new w. (true, w);
  fsync_dir_path = λ path w. (true, w);
  atomic_write_text_file = λ path text w. (true, w);
  slurp_file = λ path w. (none, w);
  public_key_load_pem = λ path w. (none, w);
  clock_monotonic_sec = λ w. (w, w + 1);
  strftime_zone = λ w. (codes "+0000", w);
  closed_segments = λ w. [];
  store_bytes = λ w. 0;
  time = λ w. w;
  no_space = λ w fp. false;
  Builder = ℕ;
  Ref = ℕ;
  builder_init = 1;
  string_create = λ s b. (some b, b + 1);
  uint8_vec_create = λ s b. (some b, b + 1);
  field_create = λ n v b. (some b, b + 1);
  field_vec_create = λ refs b. (some b, b + 1);
  full_entry_create = λ fields b. (some b, b + 1);
  compact_entry_create = λ fields b. (some b, b + 1);
  chunk_create = λ refs b. (true, b + 1);
  default_chunk_create = λ refs b. (true, b + 1);
  finalize_buffer = λ b. some (7 ∷ b ∷ []);
  zstd_compress = λ raw. none;
  zstd_compress_using_dict = λ dict raw. none;
  fflush_written = λ fp. refl;
  ftello_end = λ fp n e. sym (some-injective _ _ e);
}

abbrev pub one_entry : LogEntry
one_entry = record {
  realtime_ts = 1000;
  monotonic_ts = 5;
  monotonic_tie_order = 0;
  pid = 4;
  uid = 0;
  gid = 0;
  boot_seq = 2;
  priority = 3;
  errno_value = 0;
  boot_id = codes "ab";
  message = some (codes "hello");
  message_id = none;
  hostname = none;
  unit = none;
  comm = none;
  exe = none;
  extra_fields = [];
}

abbrev pub older_entry : LogEntry
older_entry = record one_entry { realtime_ts = 990; monotonic_ts = 6 }

abbrev pub only_group : PriorityGroup
only_group = record {
  name = codes "all";
  priorities = 0 ∷ 1 ∷ 2 ∷ 3 ∷ 4 ∷ 5 ∷ 6 ∷ 7 ∷ [];
  min_priority = 0;
  durable_per_frame = false;
  durability_flush_frames = 0;
  durability_flush_interval_sec = 0;
  max_bytes = 0;
  max_age_sec = 0;
  static_dict_path = none;
  modifiers = [];
}

abbrev pub toy_config : RecorderConfig
toy_config = record {
  capture_message_id = false;
  capture_unit = true;
  capture_hostname = false;
  capture_comm = false;
  capture_exe = false;
  capture_pid = true;
  capture_uid = false;
  capture_gid = false;
  capture_all_fields = false;
  capture_fields_whitelist = [];
  capture_fields_blacklist = [];
  sanitize_output = true;
  durable_priority_max = pos 0;
  durability_flush_frames = 0;
  durability_flush_interval_sec = 0;
  log_max_bytes = 0;
  min_free_bytes = 0;
  segment_max_bytes = 100000;
  segment_max_age_sec = 0;
  compress_enabled = false;
  compress_min_frame_bytes = 0;
  compress_if_smaller = false;
  encryption_public_key = none;
  static_dict_paths = [];
  modifiers = [];
  groups = only_group ∷ [];
  priority_to_group = some 0 ∷ some 0 ∷ some 0 ∷ some 0 ∷ some 0 ∷ some 0 ∷ some 0 ∷ some 0 ∷ [];
}

-- a writer that was initialized, and one with an open segment and an entry pending
abbrev pub closed_writer : PriorityWriter toy_os
closed_writer = record {
  group_index = 0;
  fp = none;
  is_open = false;
  path = [];
  tmp_path = [];
  group_name = codes "all";
  boot_id = [];
  timezone = [];
  boot_seq = 0;
  segment_seq = 0;
  clock_jump_seen_seq = 0;
  bytes_written = 0;
  entry_count = 0;
  first_realtime_ts = 0;
  first_monotonic_ts = 0;
  previous_realtime_ts = 0;
  max_realtime_ts = 0;
  last_monotonic_ts = 0;
  realtime_nonmonotonic = false;
  opened_mono_sec = 0;
  last_chunk_flush_mono_sec = 0;
  last_sync_mono_sec = 0;
  unsynced_frames = 0;
  compress_enabled = false;
  compress_min_frame_bytes = 0;
  compress_if_smaller = false;
  encryptor = none;
  index_writer = none;
  index_header = plain_header;
  durable_per_frame = false;
  durability_flush_frames = 0;
  durability_flush_interval_sec = 0;
  dict_bytes = [];
  builder = none;
  entries = [];
  use_compact_entries = true;
}

abbrev pub fresh_writer : PriorityWriter toy_os
fresh_writer = record closed_writer {
  fp = some (1 ∷ 2 ∷ 3 ∷ []);
  is_open = true;
  previous_realtime_ts = 1000;
  max_realtime_ts = 1000;
  index_writer = some record { writer = record { fp = []; record_count = 0 }; path = codes "x" };
}

abbrev pub pending : Site toy_os
pending = record { writer = record fresh_writer { builder = some 9; entries = 4 ∷ [] }; world = 60 }

abbrev pub idle : Recorder toy_os
idle = record {
  config = toy_config;
  next_segment_seq = 12;
  writers = closed_writer ∷ [];
  clock_jump_seq = 0;
  clock_jump_usec = pos 0;
  world = 60;
}

flush-Keeps_example :
    Keeps toy_os pending (writer_flush_chunk toy_os pending).1
    × (◌≡◌ {A = List ℕ} (writer_flush_chunk toy_os pending).1.writer.entries [])
flush-Keeps_example = writer_flush_chunk-Keeps toy_os pending 9 refl

flush-Grown_example : Grown toy_os 9 pending (writer_flush_chunk toy_os pending).1
unfolding writer_flush_chunk clear_chunk write_pending chunk_buffer store_chunk put_frame
    compress_chunk flush_stream append_index note_position count_frame sync_due frame_info_of
    with_stream with_index monotonic_now_sec segment_write_frame write_frame_parts write_tag
    write_plain_frame encode_frame_header write_all index_writer_append store_all record_parts
flush-Grown_example = writer_flush_chunk-Grown toy_os pending 9 refl refl refl

footer_example :
    ((footer_of toy_os (note_all toy_os (one_entry ∷ older_entry ∷ []) fresh_writer) 6).entry_count
      ≡ 2)
    × (All
          (λ (e : LogEntry).
            e.realtime_ts
            ≤ (footer_of toy_os
                (note_all toy_os (one_entry ∷ older_entry ∷ []) fresh_writer)
                6).last_realtime_ts)
          (one_entry ∷ older_entry ∷ [])
        × (Occurs
              (footer_of toy_os
                (note_all toy_os (one_entry ∷ older_entry ∷ []) fresh_writer)
                6).last_realtime_ts
              (one_entry ∷ older_entry ∷ [])
            × (has_flag
                  (footer_of toy_os
                    (note_all toy_os (one_entry ∷ older_entry ∷ []) fresh_writer)
                    6).footer_flags
                  footer_flag_realtime_nonmonotonic
                ≡ descends 1000 (older_entry ∷ []))))
footer_example =
    footer_of-note_all toy_os one_entry (older_entry ∷ []) fresh_writer 6
      record { entry_count = refl; previous = refl; max = refl; monotonic = refl } (omega arith)

ensure_writer_example :
    (i : ℕ) × ((group_of toy_os toy_config one_entry ≡ some i)
      × Ready toy_os i 0 one_entry (recorder_ensure_writer toy_os one_entry idle).1)
unfolding with_stream flush_and_sync_file monotonic_now_sec current_timezone_string
    persist_next_segment_seq write_all write_nonempty index_writer_open encode_index_header
    build_segment_dir join_path_component join_path_suffix build_state_segment_seq_path
    build_segment_path build_segment_tmp_path build_index_path decimal decimal_digits
    writer_open_segment take_number create_segment write_segment publish rename_file adopt_header
    first_position start_segment name_segment create_file create_encryptor use_dictionary
    with_dictionary put_header create_index open_index or_else header_of on_writer close_stream
    segment_write_header write_parts encode_fixed encode_body encode_numbers encode_times c_field
    strnlen recorder_ensure_writer group_of ensure_group_writer rotate_if_due open_if_closed
    writer_should_rotate config_uses_full_entries modifier_list_uses_full_entries
    groups_use_full_entries
ensure_writer_example = recorder_ensure_writer-Ready toy_os one_entry idle (omega arith) refl
