-- ===== src/Writer/Create.antt =====
-- src/recorder.c: `writer_open_segment` up to the index file, and its cleanups.
use recorder.Common.{ℕ, bit_or, Bool, true, false, Option, none, some}
use recorder.Common.{is_some, List, [], length, take, replicate, ◌==◌}
use recorder.Common.{if◌then◌else◌, Step, give_up, ok, err}
use recorder.Segment.{
  SegmentHeader, flag_has_static_dict, flag_compact_entries, flag_encrypted, boot_id_size,
}
use recorder.Segment.Header.{SegmentEncryptor, segment_write_header}
use recorder.Index.Writer.{index_writer_open}
use recorder.Config.{RecorderConfig, config_uses_full_entries}
use recorder.Paths.{build_segment_path, build_segment_tmp_path, build_index_path}
use recorder.Writer.{Os, PriorityWriter, Site, World, OpenIndex, LogEntry, with_stream}
use recorder.Writer.Close.{close_stream}

module _ (os : Os) where
  -- `index_writer_abort(w->index_writer, 1)`
  unfoldable pub abort_index : Option (OpenIndex os) → World os → World os
  abort_index none world = world
  abort_index (some i) world = (os.disk.unlink i.path (os.fclose i.writer.fp world)).1

  -- the cleanups of the error paths: all close the file and drop the encryptor
  unfoldable pub drop_file : Step (Site os)
  drop_file s = (
    false,
    record {
      writer = record s.writer { encryptor = none; fp = none };
      world = close_stream os s.writer.fp s.world;
    },
  )

  unfoldable pub drop_and_unlink : Step (Site os)
  drop_and_unlink s =
      let (rv, s') = drop_file s in
      (rv, record s' { world = (os.disk.unlink s.writer.tmp_path s'.world).1 })

  unfoldable pub drop_index : Step (Site os)
  drop_index s =
      let (rv, s') = drop_file s in
      (
        rv,
        record {
          writer = record s'.writer { index_writer = none };
          world = abort_index s.writer.index_writer s'.world;
        },
      )

  unfoldable pub drop_index_and_unlink : Step (Site os)
  drop_index_and_unlink s =
      let (rv, s') = drop_index s in
      (rv, record s' { world = (os.disk.unlink s.writer.tmp_path s'.world).1 })

  -- A call that fails is followed by its cleanup.
  unfoldable pub or_else : Step (Site os) → Step (Site os) → Step (Site os)
  or_else call cleanup s = let (done, s') = call s in if done then (true, s') else cleanup s'

  -- a call that only concerns the world
  abbrev pub outside : (World os → Bool × World os) → Step (Site os)
  outside call s = let (done, world) = call s.world in (done, record s { world = world })

  unfoldable pub name_segment : ℕ → Step (Site os)
  name_segment seq s =
      let w = s.writer in
      elim (build_segment_path os.disk.log_dir 512 w.group_name seq) [
        | none ↦ give_up s
        | some path ↦
            let w' = record w { path = path } in
            elim (build_segment_tmp_path os.disk.log_dir 512 w.group_name seq) [
              | none ↦ (false, record s { writer = w' })
              | some tmp_path ↦ (true, record s { writer = record w' { tmp_path = tmp_path } })
            ]
      ]

  unfoldable pub create_file : Step (Site os)
  create_file s =
      let (fp, world) = os.fopen s.writer.tmp_path s.world in
      (is_some fp, record { writer = record s.writer { fp = fp }; world = world })

  -- `segment_encryptor_create`, if a public key is configured
  unfoldable pub create_encryptor : Option (List ℕ) → Step (Site os)
  create_encryptor none s = (true, s)
  create_encryptor (some pem_path) s =
      let (key, world) = os.public_key_load_pem pem_path s.world in
      elim key [
        | none ↦ (false, record { writer = record s.writer { encryptor = none }; world = world })
        | some public_key ↦
            let fresh : SegmentEncryptor os.crypto os.files.stdio = record {
              public_key = public_key;
              dek = replicate 32 0;
              nonce_prefix = replicate 4 0;
              frame_index = 0;
              initialized = false;
            } in
            (true, record { writer = record s.writer { encryptor = some fresh }; world = world })
      ]

  -- the header, but for what a dictionary adds to it
  unfoldable pub header_of :
      RecorderConfig → LogEntry → PriorityWriter os → List ℕ → List ℕ → SegmentHeader
  header_of config entry w timezone dict = record {
    flags =
        bit_or
          (bit_or (if config_uses_full_entries config then 0 else flag_compact_entries)
            (if is_some w.encryptor then flag_encrypted else 0))
          (if length dict == 0 then 0 else flag_has_static_dict);
    segment_seq = w.segment_seq;
    boot_seq = entry.boot_seq;
    boot_id = take boot_id_size entry.boot_id;
    timezone = timezone;
    first_realtime_ts = entry.realtime_ts;
    first_monotonic_ts = entry.monotonic_ts;
    dict_len = 0;
  }

  -- A dictionary that cannot be read, or has no bytes, ends the opening.
  unfoldable pub use_dictionary : Option (List ℕ) → (List ℕ → Step (Site os)) → Step (Site os)
  use_dictionary none next s = drop_and_unlink s
  use_dictionary (some dict) next s = if length dict == 0 then drop_and_unlink s else next dict s

  -- The dictionary is empty where none is configured.
  unfoldable pub with_dictionary : Option (List ℕ) → (List ℕ → Step (Site os)) → Step (Site os)
  with_dictionary none next s = next [] s
  with_dictionary (some path) next s =
      let (dict_buf, world) = os.slurp_file path s.world in
      use_dictionary dict_buf next (record s { world = world })

  unfoldable pub put_header : SegmentHeader → List ℕ → Step (Site os)
  put_header header dict = with_stream os (λ fp s.
      let out =
        segment_write_header os.crypto os.files.stdio header dict s.writer.encryptor
          (os.rng s.world) fp in
      let s' : Site os = record {
        writer = record s.writer { fp = some out.stream; encryptor = out.encryptor };
        world = os.put_rng out.rng s.world;
      } in
      elim out.result [ ok u ↦ (true, s') | err e ↦ drop_file s' ])

  -- `index_writer_open`: a file that cannot be begun is removed again
  unfoldable pub create_index : SegmentHeader → List ℕ → Step (Site os)
  create_index header path s =
      let (opened, world) = os.fopen path s.world in
      elim opened [
        | none ↦ (false, record s { world = world })
        | some fp ↦ elim (index_writer_open os.files os.reader header.segment_seq header.flags fp) [
          | none ↦ (false, record s { world = (os.disk.unlink path (os.fclose fp world)).1 })
          | some writer ↦
              let i : OpenIndex os = record { writer = writer; path = path } in
              (
                true,
                record {
                  writer = record s.writer { index_writer = some i; index_header = header };
                  world = world;
                },
              )
        ]
      ]

  unfoldable pub open_index : SegmentHeader → Step (Site os)
  open_index header s =
      elim (build_index_path os.disk.log_dir 512 s.writer.group_name s.writer.segment_seq) [
        | none ↦ drop_and_unlink s
        | some path ↦ or_else (create_index header path) drop_and_unlink s
      ]
