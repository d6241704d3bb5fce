-- ===== src/Lib.antt =====
-- The recorder is a log daemon: it takes entries from sources, collects them in chunks, and
-- appends the chunks as frames to segment files, which it rotates and retains by policy, beside
-- an advisory index of each segment. Players read the segments back. This library models the file
-- format and the code that writes and reads it.
--
-- The files, and the code they are about:
--   Common: tests on numbers, list lemmas, bit operations and the result type that the other
--     files share.
--   Bytes: src/helper.c, little-endian words and the CRC. A buffer is a list of numbers below
--     256, and a pointer into it is the rest of the list.
--   Stdio: `write_all` of src/segment.c. The C library's stream is a parameter, which may take
--     any front part of a buffer.
--   Segment: the records and constants of src/segment.h; Segment/Header is `segment_write_header`
--     and `segment_parse_header`, Segment/Frame is `segment_write_frame` and the reading of a
--     frame, Segment/Footer is `segment_write_footer` and the recognition of a footer,
--     Segment/Scan is `decompress_payload` and `segment_scan_impl`. Segment/Reader is
--     `segment_read_path_header` and `segment_frame_reader_scan`, Segment/Reader/Path is
--     `segment_frame_reader_open` and `segment_scan_path_frame`. Segment/Crypto holds the
--     parameters for OpenSSL, zstd and the generated verifiers.
--   Index: src/index.c. Index/Summary is `index_add_entry` and the service filter, Index/Record
--     the bytes of a record, Index/Writer the writer, and Index/Reader the opening of an index
--     with its checks, and the bisections.
--   Retention: the retention of closed segments in src/recorder.c, from `retention_sort` to
--     `retention_reclaim_lower_priority`. The disk is a parameter, as is the list of closed
--     segments, of which the first 4096 are collected; the verbose log of removals is part of the
--     state. Retention/Files is what the calls on the disk do to files.
--   Boots: `boot_registry_get` and `boot_registry_seq` of src/recorder.c.
--   Order: `compare_stored_entries` and `compare_iterator_entries` of src/librecorder.c.
--   Paths: `join_path_suffix`, `join_path_component` and the paths of the store in
--     src/recorder.c.
--   Config: `RecorderConfig` of src/recorder.c and its derived settings. Config/Json is the
--     `json_get_` functions for one key over a data type of JSON values, Config/Strip
--     `strip_hash_comment_lines`, Config/Sizes `parse_size_string`, Config/Modifiers
--     `json_get_modifier_list`, Config/Groups `json_get_priority_groups`, Config/Load
--     `recorder_config_init` and `recorder_config_load`, whose chain of reads is a list of steps.
--   Writer: the writers of the priority groups in src/recorder.c. `Os` is everything that they
--     call outside of this model, as functions on a world; a call that returns -1 is a step with
--     the result false. Writer/Entries serializes entries, Writer/Flush is `writer_flush_chunk`,
--     Writer/Close `writer_close_segment`, Writer/Create and Writer/Open `writer_open_segment`,
--     Writer/Submit `writer_should_rotate` to `recorder_submit_entry_with_recovery`. The entries
--     of a chunk are a list, whose length is the count.
--   Modifiers: `apply_modifier_list` of a build with PCRE2, `apply_entry_modifiers` and
--     `recorder_assign_monotonic_tie_order` of src/recorder.c. Scripts that are enqueued are an
--     output; the loop over reroutes has the bound of the code as its fuel.
--   Player: `add_group_option`, whose loop has the length of the text as its fuel, and `add_boot`
--     of src/player.c.
--   Tests: concrete files and instances of the parameters, on which the theorems are applied.
--
-- A function that returns -1 is a `Result` with the value of errno that it sets, or a constructor
-- of its own type; the value `overrun` stands for a write out of an array, behind which the model
-- does not go. Allocation is taken to succeed, and the null checks of pointers that the callers
-- never pass as null are left out. A bisection runs on fuel, the number of records, and is shown
-- to have enough. The scan loop runs on fuel, the length of the file, and is shown never to use
-- it up.
--
-- Not modelled: the rest of the recorder, which are its sources of entries, the recovery of a
-- store, the state files and the shutdown, most of the player and of its library, the crypto
-- wrapper, the script worker, the code that flatcc generates, and the tests.
pub mod Common
pub mod Bytes
pub mod Stdio
pub mod Segment
pub mod Index
pub mod Retention
pub mod Boots
pub mod Order
pub mod Paths
pub mod Config
pub mod Writer
pub mod Modifiers
pub mod Player
pub mod Tests
