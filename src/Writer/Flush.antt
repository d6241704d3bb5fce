-- ===== src/Writer/Flush.antt =====
-- src/recorder.c: `writer_flush_chunk` and `writer_sync_if_due`.
pub mod Kept
pub mod Stored
pub mod Synced
pub mod Grown
use recorder.Common.{ℕ, ◌+◌, ◌-◌, ◌%◌, ◌^◌, Bool, true, false, not, ◌&&◌, ◌||◌}
use recorder.Common.{Option, none, some, is_some, List, [], length, take, leb, ltb, ◌==◌}
use recorder.Common.{if◌then◌else◌, Step, give_up, ◌⨟◌, ok, err}
use recorder.Segment.{SegmentFrameInfo, uint32_max}
use recorder.Segment.Frame.{segment_write_frame}
use recorder.Index.Writer.{index_writer_append}
use recorder.Writer.{
  Os, PriorityWriter, Site, Stream, OpenIndex, with_stream, with_index, monotonic_now_sec,
  flush_and_sync_file,
}

abbrev frame_flag_none : ℕ
frame_flag_none = 0

abbrev frame_flag_zstd : ℕ
frame_flag_zstd = 1

module _ (os : Os) where
  -- the root table over the pending entries; `none` also for a buffer that a frame cannot hold
  unfoldable pub chunk_buffer : PriorityWriter os → os.Builder → Option (List ℕ)
  chunk_buffer w b =
      let (created, b') =
        if w.use_compact_entries
        then os.default_chunk_create w.entries b
        else os.chunk_create w.entries b in
      let raw = os.finalize_buffer b' in
      elim created [
        | false ↦ none
        | true ↦ elim raw [
          | none ↦ none
          | some raw_buf ↦ if ltb uint32_max (length raw_buf) then none else some raw_buf
        ]
      ]

  abbrev zstd : PriorityWriter os → List ℕ → Option (List ℕ)
  zstd w raw_buf =
      if length w.dict_bytes == 0
      then os.zstd_compress raw_buf
      else os.zstd_compress_using_dict w.dict_bytes raw_buf

  -- what is stored, and the frame's flags
  unfoldable pub compress_chunk : PriorityWriter os → List ℕ → List ℕ × ℕ
  compress_chunk w raw_buf =
      if w.compress_enabled && leb w.compress_min_frame_bytes (length raw_buf)
      then elim (zstd w raw_buf) [
        | none ↦ (raw_buf, frame_flag_none)
        | some compressed ↦
            if not w.compress_if_smaller || ltb (length compressed) (length raw_buf)
            then (compressed, frame_flag_zstd)
            else (raw_buf, frame_flag_none)
      ]
      else (raw_buf, frame_flag_none)

  -- `stored_size32` of what is stored
  abbrev pub stored_part : List ℕ → List ℕ
  stored_part stored = take (length stored % 2 ^ 32) stored

  -- `segment_write_frame` into `w->fp`
  unfoldable pub put_frame : List ℕ → ℕ → ℕ → Step (Site os)
  put_frame stored flags raw_size = with_stream os (λ fp s.
      let out =
        segment_write_frame os.crypto os.files.stdio s.writer.encryptor flags (stored_part stored)
          raw_size fp in
      let s' : Site os = record s {
        writer = record s.writer { fp = some out.stream; encryptor = out.encryptor };
      } in
      elim out.result [ ok u ↦ (true, s') | err e ↦ (false, s') ])

  unfoldable pub flush_stream : Step (Site os)
  flush_stream = with_stream os (λ fp s.
      let (flushed, fp') = os.fflush fp in
      (flushed, record s { writer = record s.writer { fp = some fp' } }))

  unfoldable pub frame_info_of : PriorityWriter os → List ℕ → ℕ → ℕ → ℕ → SegmentFrameInfo
  frame_info_of w stored flags raw_size offset = record {
    flags = flags;
    stored_len = length stored % 2 ^ 32;
    uncompressed_len = raw_size;
    file_offset = offset;
    frame_len =
        (16 + length stored % 2 ^ 32 + 4 + (if is_some w.encryptor then 16 else 0)) % 2 ^ 32;
  }

  -- `index_writer_append` for the frame that was written
  unfoldable pub append_index : List ℕ → ℕ → List ℕ → ℕ → Step (Site os)
  append_index stored flags raw_buf offset = with_index os (λ i s.
      let info = frame_info_of s.writer stored flags (length raw_buf) offset in
      let (appended, writer) =
        index_writer_append os.files os.reader i.writer s.writer.index_header info raw_buf in
      let i' : OpenIndex os = record i { writer = writer } in
      (appended, record s { writer = record s.writer { index_writer = some i' } }))

  unfoldable pub note_position : Step (Site os)
  note_position = with_stream os (λ fp s. elim (os.ftello fp) [
    | none ↦ give_up s
    | some pos ↦ (true, record s { writer = record s.writer { bytes_written = pos } })
  ])

  -- `durability_flush_interval_sec != 0 && now - last_sync >= durability_flush_interval_sec`
  abbrev interval_over : PriorityWriter os → ℕ → Bool
  interval_over w now =
      not (w.durability_flush_interval_sec == 0)
      && leb w.durability_flush_interval_sec (now - w.last_sync_mono_sec)

  -- a sync, after which nothing is unsynced
  unfoldable pub sync_now : Step (Site os)
  sync_now s =
      let (synced, s') = flush_and_sync_file os s in
      let (now, world) = monotonic_now_sec os s'.world in
      elim synced [
        | false ↦ (false, s')
        | true ↦ (
          true,
          record s' {
            writer = record s'.writer { unsynced_frames = 0; last_sync_mono_sec = now };
            world = world;
          },
        )
      ]

  -- the sync if it is due: `||` reads the clock only where no other reason was found
  unfoldable pub sync_due : Bool → Step (Site os)
  sync_due due s =
      let (now, world) = monotonic_now_sec os s.world in
      elim due [
        | true ↦ sync_now s
        | false ↦ elim (s.writer.durability_flush_interval_sec == 0) [
          | true ↦ (true, s)
          | false ↦ elim (interval_over s.writer now) [
            | true ↦ sync_now (record s { world = world })
            | false ↦ (true, record s { world = world })
          ]
        ]
      ]

  unfoldable pub count_frame : Step (Site os)
  count_frame s =
      let unsynced = (s.writer.unsynced_frames + 1) % 2 ^ 32 in
      let w = record s.writer { unsynced_frames = unsynced } in
      let many = not (w.durability_flush_frames == 0) && leb w.durability_flush_frames unsynced in
      sync_due (w.durable_per_frame || many) (record s { writer = w })

  -- from the finished buffer to the sync
  unfoldable pub store_chunk : List ℕ → Step (Site os)
  store_chunk raw_buf = with_stream os (λ fp s.
      let (stored, flags) = compress_chunk s.writer raw_buf in
      elim (os.ftello fp) [
        | none ↦ give_up s
        | some offset ↦
            (put_frame stored flags (length raw_buf)
                ⨟ (flush_stream
                    ⨟ (append_index stored flags raw_buf offset ⨟ (note_position ⨟ count_frame))))
              s
      ])

  -- from the label `out`: the builder is cleared whether or not the frame was written
  unfoldable pub clear_chunk : Bool × Site os → Bool × Site os
  clear_chunk (rv, s) =
      let (now, world) = monotonic_now_sec os s.world in
      (
        rv,
        record {
          writer = record s.writer {
            builder = none;
            entries = [];
            last_chunk_flush_mono_sec = now;
          };
          world = world;
        },
      )

  unfoldable pub write_pending : os.Builder → Step (Site os)
  write_pending b s = elim (chunk_buffer s.writer b) [
    | none ↦ give_up s
    | some raw_buf ↦ store_chunk raw_buf s
  ]

  unfoldable pub writer_flush_chunk : Step (Site os)
  writer_flush_chunk s = elim s.writer.builder [
    | none ↦ (true, s)
    | some b ↦ elim (length s.writer.entries == 0) [
      | true ↦ (true, s)
      | false ↦ clear_chunk (write_pending b s)
    ]
  ]

  unfoldable pub writer_sync_if_due : Step (Site os)
  writer_sync_if_due s =
      if not s.writer.is_open || (not (is_some s.writer.fp) || (s.writer.unsynced_frames == 0))
      then (true, s)
      else sync_due s.writer.durable_per_frame s
