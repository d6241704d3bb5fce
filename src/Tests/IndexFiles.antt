-- ===== src/Tests/IndexFiles.antt =====
-- Index files: records, the writer, the reader and the searches.
use recorder.Common.{
  ℕ, ◌+◌, ◌<◌, ◌≤◌, ◌≡◌, ◌⊎◌, refl, sym, ap, ◌∙◌, zero, suc, arith, some, true, false, List, [],
  ◌∷◌, ◌++◌, All,
}
use recorder.Bytes.{read_u32_le, read_u64_le, octet}
use mathlib.Core.Option.{some-injective}
use recorder.Stdio.{write_all}
use recorder.Segment.{SegmentFrameInfo}
use recorder.Index.{IndexFrame}
use recorder.Index.Summary.{IndexEntry, ChunkReader, summarize, index_frame_may_contain_service}
use recorder.Index.Summary.Times.{Holds, Within, Ranges, frame_ranges, summarize-Holds}
use recorder.Index.Summary.Services.{index_frame_may_contain_service-summarize}
use recorder.Index.Record.{
  encode_index_frame, decode_index_frame, IsIndexFrame, decode_index_frame-encode_index_frame,
}
use recorder.Index.Writer.{
  IndexStdio, encode_index_header, encode_index_footer, rebuild_index, index_writer_open,
  append_all, index_writer_append, index_writer_close, store_all, record_parts,
}
use recorder.Index.Writer.Image.{index_image, rebuild_index-written}
use recorder.Index.Reader.{
  index_count, index_validate_segment, validate_frames, index_open_read, found, no_match,
  find_frame, index_find_offset_frame, index_pread_frame,
}
use recorder.Index.Reader.Contiguous.{Reads, Placed}
use recorder.Index.Reader.Opened.{index_open_read-contiguous}
use recorder.Index.Reader.Search.{Below, Reaches}
use recorder.Index.Reader.Find.{
  Sorted, find_frame-boundary, find_frame-first, index_find_offset_frame_lem,
}
use recorder.Tests.Fixtures.{list_io, plain_header}

abbrev pub entry_one : IndexEntry
entry_one = record { realtime_ts = 50; monotonic_ts = 5; priority = 3; unit = some (b'a' ∷ []) }

abbrev pub entry_two : IndexEntry
entry_two = record { realtime_ts = 40; monotonic_ts = 6; priority = 6; unit = some (b'b' ∷ []) }

abbrev frame_info : SegmentFrameInfo
frame_info = record {
  flags = 0;
  stored_len = 10;
  uncompressed_len = 10;
  file_offset = 152;
  frame_len = 30;
}

summarize-Holds_example :
    All
      (Holds (frame_ranges (summarize frame_info (entry_one ∷ entry_two ∷ []))))
      (entry_one ∷ entry_two ∷ [])
    × ((b : Ranges)
        → All (Holds b) (entry_one ∷ entry_two ∷ [])
        → Within b (frame_ranges (summarize frame_info (entry_one ∷ entry_two ∷ []))))
summarize-Holds_example = summarize-Holds frame_info entry_one (entry_two ∷ [])

may_contain_example :
    index_frame_may_contain_service
      (summarize frame_info (entry_one ∷ entry_two ∷ []))
      (some (b'b' ∷ []))
    ≡ true
may_contain_example =
    index_frame_may_contain_service-summarize frame_info (entry_one ∷ []) entry_two [] (b'b' ∷ [])
      refl

-- two frames that follow each other
abbrev indexed_one : IndexFrame
indexed_one = record {
  file_offset = 152;
  frame_len = 30;
  min_realtime_ts = 40;
  max_realtime_ts = 50;
  min_monotonic_ts = 5;
  max_monotonic_ts = 6;
  priority = 3;
  entry_count = 2;
  service_filter_kind = 1;
  service_hashes = 7 ∷ 8 ∷ 0 ∷ 0 ∷ [];
  service_overflow = 0;
}

abbrev indexed_two : IndexFrame
indexed_two = record indexed_one {
  file_offset = 182;
  frame_len = 20;
  max_realtime_ts = 60;
  max_monotonic_ts = 9;
}

indexed_one-IsIndexFrame : IsIndexFrame indexed_one
indexed_one-IsIndexFrame = record {
  file_offset = omega arith;
  frame_len = omega arith;
  min_realtime_ts = omega arith;
  max_realtime_ts = omega arith;
  min_monotonic_ts = omega arith;
  max_monotonic_ts = omega arith;
  entry_count = omega arith;
  hash_count = refl;
  service_hashes = (omega arith, (omega arith, (omega arith, (omega arith, tt))));
}

decode_index_frame-encode_index_frame_example :
    decode_index_frame (encode_index_frame indexed_one ++ (1 ∷ 2 ∷ [])) ≡ indexed_one
decode_index_frame-encode_index_frame_example =
    decode_index_frame-encode_index_frame indexed_one (1 ∷ 2 ∷ []) indexed_one-IsIndexFrame

pub reread_toy : (fp all : List ℕ) → some fp ≡ some all → all ≡ fp
reread_toy fp all e = cc

pub true_toy : false ≡ true → false ≡ true
true_toy e = e

-- a stream that never fails
abbrev pub index_io : IndexStdio
index_io = record {
  stdio = list_io;
  ferror = λ s. false;
  reread = λ s. some s;
  ferror_short = λ buf fp h. absurd (omega arith);
  ferror_sticky = λ buf fp h. true_toy h;
  reread_written = λ fp all e. reread_toy fp all e;
}

abbrev pub two_entries : ChunkReader
two_entries = record {
  full_entries = λ chunk. [];
  compact_entries = λ chunk. entry_one ∷ entry_two ∷ [];
}

abbrev one_record : List IndexFrame
one_record = summarize frame_info (entry_one ∷ entry_two ∷ []) ∷ []

abbrev rebuilt : List ℕ
rebuilt =
    let body =
      encode_index_header 100 4
      ++ encode_index_frame (summarize frame_info (entry_one ∷ entry_two ∷ [])) in
    body ++ encode_index_footer 1 230 body

rebuild_index-written_example : rebuilt ≡ index_image 100 4 one_record 230
unfolding rebuild_index index_writer_open write_all encode_index_header append_all
    index_writer_append index_writer_close encode_index_footer store_all record_parts
    encode_index_frame
rebuild_index-written_example =
    rebuild_index-written index_io two_entries plain_header ((frame_info, []) ∷ []) 230 [] rebuilt
      refl refl

-- an index that is still open, of a segment of 202 bytes
abbrev open_index : List ℕ
open_index =
    encode_index_header 100 4 ++ (encode_index_frame indexed_one ++ encode_index_frame indexed_two)

index_open_read-contiguous_example :
    (end : ℕ) × (((j : ℕ) → j < 2 → Placed open_index 152 end j)
      × (((j k : ℕ) (f g : IndexFrame)
            → j < k
            → k < 2
            → Reads open_index j f
            → Reads open_index k g
            → f.file_offset + f.frame_len ≤ g.file_offset)
          × (end ≤ 202)))
unfolding index_open_read encode_index_header encode_index_frame read_u32_le octet index_count
    index_validate_segment read_u64_le validate_frames index_pread_frame decode_index_frame
index_open_read-contiguous_example =
    index_open_read-contiguous open_index plain_header 152 202 2 (omega arith) (omega arith) refl

index_find_offset_frame_lem_example :
    index_find_offset_frame open_index (some (plain_header, 152, 202)) 182 ≡ found indexed_two 1
unfolding index_open_read encode_index_header encode_index_frame read_u32_le octet index_count
    index_validate_segment read_u64_le validate_frames index_pread_frame decode_index_frame
index_find_offset_frame_lem_example =
    index_find_offset_frame_lem open_index plain_header 152 202 2 (omega arith) (omega arith) refl 1
      indexed_two (omega arith) refl

find_frame-boundary_example :
    (r : ℕ) × (((k : ℕ) → suc k ≡ r → Below open_index (λ f. f.max_realtime_ts) 55 k)
      × (((r ≡ 2)
            × (find_frame open_index (some (plain_header, 152, 202)) (λ f. f.max_realtime_ts) 55
                ≡ no_match))
          ⊎ ((r < 2)
              × ((x : Reaches open_index (λ f. f.max_realtime_ts) 55 r) × (find_frame open_index
                      (some (plain_header, 152, 202))
                      (λ f. f.max_realtime_ts)
                      55
                    ≡ found x.frame r)))))
unfolding index_open_read encode_index_header encode_index_frame read_u32_le octet index_count
    index_validate_segment read_u64_le validate_frames index_pread_frame decode_index_frame
find_frame-boundary_example =
    find_frame-boundary open_index plain_header 152 202 2 (omega arith) (omega arith) refl
      (λ f. f.max_realtime_ts) 55

-- The latest wall-clock times of the two frames do not fall.
open_index-Sorted : Sorted open_index 2 (λ f. f.max_realtime_ts)
unfolding index_open_read encode_index_header encode_index_frame read_u32_le octet index_count
    index_validate_segment read_u64_le validate_frames index_pread_frame decode_index_frame
open_index-Sorted zero zero f g le h rf rg =
    let same : f ≡ g = some-injective f g (sym rf ∙ rg) in
    omega (arith, ap (λ (x : IndexFrame). x.max_realtime_ts) same)
open_index-Sorted zero (suc zero) f g le h rf rg =
    let a : indexed_one ≡ f = some-injective _ _ rf in
    let b : indexed_two ≡ g = some-injective _ _ rg in
    omega (
      arith,
      ap (λ (x : IndexFrame). x.max_realtime_ts) a,
      ap (λ (x : IndexFrame). x.max_realtime_ts) b,
    )
open_index-Sorted zero (suc (suc j)) f g le h rf rg = absurd (omega arith)
open_index-Sorted (suc i) zero f g le h rf rg = absurd (omega arith)
open_index-Sorted (suc zero) (suc zero) f g le h rf rg =
    let same : f ≡ g = some-injective f g (sym rf ∙ rg) in
    omega (arith, ap (λ (x : IndexFrame). x.max_realtime_ts) same)
open_index-Sorted (suc (suc i)) (suc zero) f g le h rf rg = absurd (omega arith)
open_index-Sorted (suc i) (suc (suc j)) f g le h rf rg = absurd (omega arith)

find_frame-first_example :
    (r : ℕ) × ((r ≤ 1)
      × ((x : Reaches open_index (λ f. f.max_realtime_ts) 55 r) × (find_frame open_index
              (some (plain_header, 152, 202))
              (λ f. f.max_realtime_ts)
              55
            ≡ found x.frame r)))
unfolding index_open_read encode_index_header encode_index_frame read_u32_le octet index_count
    index_validate_segment read_u64_le validate_frames index_pread_frame decode_index_frame
find_frame-first_example =
    find_frame-first open_index plain_header 152 202 2 (omega arith) (omega arith) refl
      (λ f. f.max_realtime_ts) 55 1 indexed_two open_index-Sorted (omega arith) refl (omega arith)
