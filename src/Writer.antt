-- ===== src/Writer.antt =====
-- src/recorder.c: `LogEntry`, `PriorityWriter` and `Recorder`, over the calls of the C library, of
-- flatcc and of zstd, which are a parameter.
pub mod Entries
pub mod Flush
pub mod Close
pub mod Create
pub mod Open
pub mod Submit
use recorder.Common.{ℕ, ℤ, ◌+◌, ◌*◌, ◌≡◌, Bool, true, false, Option, none, some, List, []}
use recorder.Common.{Step, give_up, length, if◌then◌else◌, ◌==◌, codes, ◌∷◌, ◌++◌, decimal}
use recorder.Segment.{SegmentHeader}
use recorder.Segment.Crypto.{Crypto}
use recorder.Segment.Header.{SegmentEncryptor}
use recorder.Index.Summary.{ChunkReader}
use recorder.Index.Writer.{IndexStdio, IndexWriter}
use recorder.Retention.{Disk, RetainedFile}
use recorder.Config.{RecorderConfig, PriorityGroup}
use recorder.Paths.{build_state_segment_seq_path}

-- `none` is the NULL `data` of a `JournalField`.
pub record LogEntry : Type 0 where
  pub realtime_ts : ℕ
  pub monotonic_ts : ℕ
  pub monotonic_tie_order : ℕ
  pub pid : ℕ
  pub uid : ℕ
  pub gid : ℕ
  pub boot_seq : ℕ
  pub priority : ℕ
  pub errno_value : ℕ
  pub boot_id : List ℕ
  pub message : Option (List ℕ)
  pub message_id : Option (List ℕ)
  pub hostname : Option (List ℕ)
  pub unit : Option (List ℕ)
  pub comm : Option (List ℕ)
  pub exe : Option (List ℕ)
  pub extra_fields : List (List ℕ × List ℕ)

-- the fields that `serialize_entry` adds to a table, of references of the type `Ref`; `none` is
-- a field that is left out
pub record FullFields (Ref : Type 0) : Type 0 where
  pub realtime_ts : ℕ
  pub monotonic_ts : ℕ
  pub priority : ℕ
  pub message : Option Ref
  pub message_id : Option Ref
  pub unit : Option Ref
  pub pid : Option ℕ
  pub uid : Option ℕ
  pub gid : Option ℕ
  pub hostname : Option Ref
  pub comm : Option Ref
  pub exe : Option Ref
  pub errno : Option ℕ
  pub monotonic_tie_order : Option ℕ
  pub fields : Option Ref

pub record CompactFields (Ref : Type 0) : Type 0 where
  pub realtime_ts : ℕ
  pub monotonic_ts : ℕ
  pub priority : ℕ
  pub pid : Option ℕ
  pub message : Option Ref
  pub unit : Option Ref
  pub monotonic_tie_order : Option ℕ

-- What the writers call. `false` and `none` are failures; memory does not run out. The disk's
-- World is everything outside of the process. `no_space` tells whether the failed calls, the last
-- of them on the given stream, left ENOSPC or EDQUOT in `errno`.
pub record Os : Type 1 where
  pub crypto : Crypto
  pub files : IndexStdio
  pub reader : ChunkReader
  pub disk : Disk
  pub rng : disk.World → crypto.Rng
  pub put_rng : crypto.Rng → disk.World → disk.World
  pub fopen : List ℕ → disk.World → Option files.stdio.Stream × disk.World
  pub fclose : files.stdio.Stream → disk.World → disk.World
  pub fflush : files.stdio.Stream → Bool × files.stdio.Stream
  pub fsync : files.stdio.Stream → disk.World → Bool × disk.World
  pub ftello : files.stdio.Stream → Option ℕ
  pub mkdir_p : List ℕ → disk.World → Bool × disk.World
  pub rename : List ℕ → List ℕ → disk.World → Bool × disk.World
  pub fsync_dir_path : List ℕ → disk.World → Bool × disk.World
  pub atomic_write_text_file : List ℕ → List ℕ → disk.World → Bool × disk.World
  pub slurp_file : List ℕ → disk.World → Option (List ℕ) × disk.World
  pub public_key_load_pem : List ℕ → disk.World → Option crypto.PublicKey × disk.World
  pub clock_monotonic_sec : disk.World → ℕ × disk.World
  pub strftime_zone : disk.World → List ℕ × disk.World
  pub closed_segments : disk.World → List RetainedFile
  pub store_bytes : disk.World → ℕ
  pub time : disk.World → ℕ
  pub no_space : disk.World → Option files.stdio.Stream → Bool
  pub Builder : Type 0
  pub Ref : Type 0
  pub builder_init : Builder
  pub string_create : List ℕ → Builder → Option Ref × Builder
  pub uint8_vec_create : List ℕ → Builder → Option Ref × Builder
  pub field_create : Ref → Ref → Builder → Option Ref × Builder
  pub field_vec_create : List Ref → Builder → Option Ref × Builder
  pub full_entry_create : FullFields Ref → Builder → Option Ref × Builder
  pub compact_entry_create : CompactFields Ref → Builder → Option Ref × Builder
  pub chunk_create : List Ref → Builder → Bool × Builder
  pub default_chunk_create : List Ref → Builder → Bool × Builder
  pub finalize_buffer : Builder → Option (List ℕ)
  pub zstd_compress : List ℕ → Option (List ℕ)
  pub zstd_compress_using_dict : List ℕ → List ℕ → Option (List ℕ)
  pub fflush_written :
      (fp : files.stdio.Stream) → files.stdio.written (fflush fp).1 ≡ files.stdio.written fp
  pub ftello_end :
      (fp : files.stdio.Stream) (n : ℕ) → ftello fp ≡ some n → n ≡ length (files.stdio.written fp)

abbrev pub chunk_size : ℕ
chunk_size = 512

abbrev pub default_segment_max_bytes : ℕ
default_segment_max_bytes = 4 * 1024 * 1024

unfoldable pub recorder_segment_limit : RecorderConfig → ℕ
recorder_segment_limit config =
    if config.segment_max_bytes == 0 then default_segment_max_bytes else config.segment_max_bytes

module _ (os : Os) where
  abbrev pub World : Type 0
  World = os.disk.World

  abbrev pub Stream : Type 0
  Stream = os.files.stdio.Stream

  -- an index writer and its path
  pub record OpenIndex : Type 0 where
    pub writer : IndexWriter os.files os.reader
    pub path : List ℕ

  -- `builder` is none where it is not live; `entries` are the first `count` of the array that
  -- `use_compact_entries` selects.
  pub record PriorityWriter : Type 0 where
    pub group_index : ℕ
    pub fp : Option Stream
    pub is_open : Bool
    pub path : List ℕ
    pub tmp_path : List ℕ
    pub group_name : List ℕ
    pub boot_id : List ℕ
    pub timezone : List ℕ
    pub boot_seq : ℕ
    pub segment_seq : ℕ
    pub clock_jump_seen_seq : ℕ
    pub bytes_written : ℕ
    pub entry_count : ℕ
    pub first_realtime_ts : ℕ
    pub first_monotonic_ts : ℕ
    pub previous_realtime_ts : ℕ
    pub max_realtime_ts : ℕ
    pub last_monotonic_ts : ℕ
    pub realtime_nonmonotonic : Bool
    pub opened_mono_sec : ℕ
    pub last_chunk_flush_mono_sec : ℕ
    pub last_sync_mono_sec : ℕ
    pub unsynced_frames : ℕ
    pub compress_enabled : Bool
    pub compress_min_frame_bytes : ℕ
    pub compress_if_smaller : Bool
    pub encryptor : Option (SegmentEncryptor os.crypto os.files.stdio)
    pub index_writer : Option OpenIndex
    pub index_header : SegmentHeader
    pub durable_per_frame : Bool
    pub durability_flush_frames : ℕ
    pub durability_flush_interval_sec : ℕ
    pub dict_bytes : List ℕ
    pub builder : Option os.Builder
    pub entries : List os.Ref
    pub use_compact_entries : Bool

  -- the part of `Recorder` that the writers use, with the world outside
  pub record Recorder : Type 0 where
    pub config : RecorderConfig
    pub next_segment_seq : ℕ
    pub writers : List PriorityWriter
    pub clock_jump_seq : ℕ
    pub clock_jump_usec : ℤ
    pub world : World

  -- a writer that a call works on, and the world
  pub record Site : Type 0 where
    pub writer : PriorityWriter
    pub world : World

  -- calls that use `w->fp` and `w->index_writer`
  unfoldable pub with_stream : (Stream → Step Site) → Step Site
  with_stream call s = elim s.writer.fp [ none ↦ give_up s | some fp ↦ call fp s ]

  unfoldable pub with_index : (OpenIndex → Step Site) → Step Site
  with_index call s = elim s.writer.index_writer [ none ↦ give_up s | some i ↦ call i s ]

  -- "UTC" where the zone does not fit
  unfoldable pub current_timezone_string : World → List ℕ × World
  current_timezone_string world =
      let (zone, world') = os.strftime_zone world in
      (if length zone == 0 then codes "UTC" else zone, world')

  unfoldable pub monotonic_now_sec : World → ℕ × World
  monotonic_now_sec world = os.clock_monotonic_sec world

  -- `fflush`, then `fsync`
  unfoldable pub flush_and_sync_file : Step Site
  flush_and_sync_file = with_stream (λ fp s.
      let (flushed, fp') = os.fflush fp in
      let s' : Site = record s { writer = record s.writer { fp = some fp' } } in
      elim flushed [
        | false ↦ (false, s')
        | true ↦ let (synced, world) = os.fsync fp' s.world in (synced, record s' { world = world })
      ])

  unfoldable pub persist_next_segment_seq : ℕ → World → Bool × World
  persist_next_segment_seq value world = elim (build_state_segment_seq_path os.disk.log_dir 512) [
    | none ↦ (false, world)
    | some path ↦ os.atomic_write_text_file path (decimal value ++ (10 ∷ [])) world
  ]

  unfoldable pub writer_init : PriorityWriter → PriorityGroup → ℕ → PriorityWriter
  writer_init zeroed group group_index = record zeroed {
    group_index = group_index;
    group_name = group.name;
  }
