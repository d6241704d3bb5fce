-- ===== src/Index/Summary.antt =====
-- src/index.c `index_add_entry`, the summary that `write_index_frame` makes of a chunk, and
-- `index_frame_may_contain_service`.
pub mod Times
pub mod Services
use recorder.Common.{ℕ, zero, suc, ◌+◌, ◌%◌, ◌^◌, Bool, true, false, not, ◌||◌, Option, none, some}
use recorder.Common.{List, [], ◌∷◌, length, take, set, replicate, ltb, ◌==◌, if◌then◌else◌}
use recorder.Segment.{SegmentHeader, SegmentFrameInfo, has_flag, flag_compact_entries}
use recorder.Index.{IndexFrame, fnv1a64, service_hash_slots}

-- What the generated flatbuffers readers give of one entry; `unit` is null where it is absent.
pub record IndexEntry : Type 0 where
  pub realtime_ts : ℕ
  pub monotonic_ts : ℕ
  pub priority : ℕ
  pub unit : Option (List ℕ)

-- the generated readers of the two chunk types
pub record ChunkReader : Type 0 where
  pub full_entries : List ℕ → List IndexEntry
  pub compact_entries : List ℕ → List IndexEntry

-- the variables of `write_index_frame` that the entries fill in
pub record Summary : Type 0 where
  pub min_rt : ℕ
  pub max_rt : ℕ
  pub min_mono : ℕ
  pub max_mono : ℕ
  pub priority : ℕ
  pub service_hashes : List ℕ
  pub service_count : ℕ
  pub overflow : ℕ

-- `for (j = 0; …) if (hashes[j] == hash)` over the given hashes
unfoldable pub hash_seen : List ℕ → ℕ → Bool
hash_seen [] hash = false
hash_seen (h ∷ hs) hash = (h == hash) || hash_seen hs hash

unfoldable pub add_service : Option (List ℕ) → Summary → Summary
add_service none z = z
add_service (some unit) z =
    let hash = fnv1a64 unit in
    let added : Summary = record z {
      service_hashes = set z.service_hashes z.service_count hash;
      service_count = suc z.service_count;
    } in
    let full : Summary = record z { overflow = 1 } in
    if hash_seen (take z.service_count z.service_hashes) hash
    then z
    else (if ltb z.service_count service_hash_slots then added else full)

unfoldable pub index_add_entry : IndexEntry → ℕ → Summary → Summary
index_add_entry e entry_index z =
    let first = entry_index == 0 in
    add_service e.unit (record z {
      min_rt = if first || ltb e.realtime_ts z.min_rt then e.realtime_ts else z.min_rt;
      max_rt = if first || ltb z.max_rt e.realtime_ts then e.realtime_ts else z.max_rt;
      min_mono = if first || ltb e.monotonic_ts z.min_mono then e.monotonic_ts else z.min_mono;
      max_mono = if first || ltb z.max_mono e.monotonic_ts then e.monotonic_ts else z.max_mono;
      priority = e.priority;
    })

-- the loop over the entries from the index `i` on
unfoldable pub add_entries : List IndexEntry → ℕ → Summary → Summary
add_entries [] i z = z
add_entries (e ∷ es) i z = add_entries es (i + 1) (index_add_entry e i z)

abbrev pub empty_summary : Summary
empty_summary = record {
  min_rt = 0;
  max_rt = 0;
  min_mono = 0;
  max_mono = 0;
  priority = 0;
  service_hashes = replicate 4 0;
  service_count = 0;
  overflow = 0;
}

-- the entries of the chunk that the header's flags call for
abbrev pub chunk_entries : ChunkReader → SegmentHeader → List ℕ → List IndexEntry
chunk_entries reader header chunk =
    if has_flag header.flags flag_compact_entries
    then reader.compact_entries chunk
    else reader.full_entries chunk

-- the record that `write_index_frame` stores
unfoldable pub summarize : SegmentFrameInfo → List IndexEntry → IndexFrame
summarize frame entries =
    let z = add_entries entries 0 empty_summary in
    record {
      file_offset = frame.file_offset;
      frame_len = frame.frame_len;
      min_realtime_ts = z.min_rt;
      max_realtime_ts = z.max_rt;
      min_monotonic_ts = z.min_mono;
      max_monotonic_ts = z.max_mono;
      priority = z.priority;
      entry_count = length entries % 2 ^ 32;
      service_filter_kind = 1;
      service_hashes = z.service_hashes;
      service_overflow = z.overflow;
    }

-- `unit` is null where the caller asks for no service.
unfoldable pub index_frame_may_contain_service : IndexFrame → Option (List ℕ) → Bool
index_frame_may_contain_service frame none = true
index_frame_may_contain_service frame (some unit) =
    if not (frame.service_filter_kind == 1) || not (frame.service_overflow == 0)
    then true
    else hash_seen (take service_hash_slots frame.service_hashes) (fnv1a64 unit)
