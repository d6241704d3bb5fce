-- ===== src/Index/Record.antt =====
-- src/index.c: the 83 bytes of a record, as `write_index_frame` stores them and `decode_index_frame`
-- reads them.
use recorder.Common.{ℕ, ◌≡◌, refl, ap, ap₂, arith, List, [], ◌∷◌, ◌++◌, All, length, drop, get_or}
use recorder.Bytes.{IsU32, IsU64, at_index, read_u32_le, read_u64_le, write_u32_le, write_u64_le}
use recorder.Bytes.Words.{read_u32_le-write_u32_le, read_u64_le-write_u64_le}
use recorder.Index.{IndexFrame}

abbrev encode_times : IndexFrame → List ℕ
encode_times f =
    write_u64_le f.min_realtime_ts
    ++ (write_u64_le f.max_realtime_ts
        ++ (write_u64_le f.min_monotonic_ts ++ write_u64_le f.max_monotonic_ts))

abbrev encode_hashes : List ℕ → List ℕ
encode_hashes hs =
    write_u64_le (get_or hs 0 0)
    ++ (write_u64_le (get_or hs 1 0)
        ++ (write_u64_le (get_or hs 2 0) ++ write_u64_le (get_or hs 3 0)))

-- the calls of `store_u64`, `store_u32` and `fputc`, in order
unfoldable pub encode_index_frame : IndexFrame → List ℕ
encode_index_frame f =
    write_u64_le f.file_offset
    ++ (write_u32_le f.frame_len
        ++ (encode_times f
            ++ (f.priority
                ∷ (write_u32_le f.entry_count
                    ++ (f.service_filter_kind
                        ∷ (encode_hashes f.service_hashes ++ (f.service_overflow ∷ [])))))))

unfoldable pub decode_index_frame : List ℕ → IndexFrame
decode_index_frame record_bytes = record {
  file_offset = read_u64_le record_bytes;
  frame_len = read_u32_le (drop 8 record_bytes);
  min_realtime_ts = read_u64_le (drop 12 record_bytes);
  max_realtime_ts = read_u64_le (drop 20 record_bytes);
  min_monotonic_ts = read_u64_le (drop 28 record_bytes);
  max_monotonic_ts = read_u64_le (drop 36 record_bytes);
  priority = at_index record_bytes 44;
  entry_count = read_u32_le (drop 45 record_bytes);
  service_filter_kind = at_index record_bytes 49;
  service_hashes =
      read_u64_le (drop 50 record_bytes)
      ∷ read_u64_le (drop 58 record_bytes)
      ∷ read_u64_le (drop 66 record_bytes)
      ∷ read_u64_le (drop 74 record_bytes)
      ∷ [];
  service_overflow = at_index record_bytes 82;
}

-- The fields fit their C types.
pub record IsIndexFrame (f : IndexFrame) : Type 0 where
  pub file_offset : IsU64 f.file_offset
  pub frame_len : IsU32 f.frame_len
  pub min_realtime_ts : IsU64 f.min_realtime_ts
  pub max_realtime_ts : IsU64 f.max_realtime_ts
  pub min_monotonic_ts : IsU64 f.min_monotonic_ts
  pub max_monotonic_ts : IsU64 f.max_monotonic_ts
  pub entry_count : IsU32 f.entry_count
  pub hash_count : length f.service_hashes ≡ 4
  pub service_hashes : All IsU64 f.service_hashes

pub length-encode_index_frame : (f : IndexFrame) → length (encode_index_frame f) ≡ 83
unfolding encode_index_frame
length-encode_index_frame f = refl

module _ (f : IndexFrame) (rest : List ℕ) where
  abbrev bytes : List ℕ
  bytes = encode_index_frame f ++ rest

  read_offset : IsU64 f.file_offset → read_u64_le bytes ≡ f.file_offset
  unfolding encode_index_frame
  read_offset h = read_u64_le-write_u64_le f.file_offset (drop 8 bytes) h

  read_len : IsU32 f.frame_len → read_u32_le (drop 8 bytes) ≡ f.frame_len
  unfolding encode_index_frame
  read_len h = read_u32_le-write_u32_le f.frame_len (drop 12 bytes) h

  read_min_rt : IsU64 f.min_realtime_ts → read_u64_le (drop 12 bytes) ≡ f.min_realtime_ts
  unfolding encode_index_frame
  read_min_rt h = read_u64_le-write_u64_le f.min_realtime_ts (drop 20 bytes) h

  read_max_rt : IsU64 f.max_realtime_ts → read_u64_le (drop 20 bytes) ≡ f.max_realtime_ts
  unfolding encode_index_frame
  read_max_rt h = read_u64_le-write_u64_le f.max_realtime_ts (drop 28 bytes) h

  read_min_mono : IsU64 f.min_monotonic_ts → read_u64_le (drop 28 bytes) ≡ f.min_monotonic_ts
  unfolding encode_index_frame
  read_min_mono h = read_u64_le-write_u64_le f.min_monotonic_ts (drop 36 bytes) h

  read_max_mono : IsU64 f.max_monotonic_ts → read_u64_le (drop 36 bytes) ≡ f.max_monotonic_ts
  unfolding encode_index_frame
  read_max_mono h = read_u64_le-write_u64_le f.max_monotonic_ts (drop 44 bytes) h

  read_count : IsU32 f.entry_count → read_u32_le (drop 45 bytes) ≡ f.entry_count
  unfolding encode_index_frame
  read_count h = read_u32_le-write_u32_le f.entry_count (drop 49 bytes) h

  read_hashes :
      (hs : List ℕ)
      → length hs ≡ 4
      → All IsU64 hs
      → (tail : List ℕ)
      → let p = encode_hashes hs ++ tail in
        (read_u64_le p
          ∷ read_u64_le (drop 8 p)
          ∷ read_u64_le (drop 16 p)
          ∷ read_u64_le (drop 24 p)
          ∷ [])
        ≡ hs
  unfolding read_u64_le
  read_hashes (a ∷ b ∷ c ∷ d ∷ []) n (ha, (hb, (hc, (hd, t)))) tail =
      ap₂ ◌∷◌ (read_u64_le-write_u64_le a (encode_hashes (b ∷ c ∷ d ∷ []) ++ tail) ha) (
        ap₂ ◌∷◌ (read_u64_le-write_u64_le b (write_u64_le c ++ (write_u64_le d ++ tail)) hb) (
          ap₂ ◌∷◌ (read_u64_le-write_u64_le c (write_u64_le d ++ tail) hc)
            (ap (λ x. x ∷ []) (read_u64_le-write_u64_le d tail hd))))
  read_hashes [] n h tail = absurd (omega arith)
  read_hashes (a ∷ []) n h tail = absurd (omega arith)
  read_hashes (a ∷ b ∷ []) n h tail = absurd (omega arith)
  read_hashes (a ∷ b ∷ c ∷ []) n h tail = absurd (omega arith)
  read_hashes (a ∷ b ∷ c ∷ d ∷ e ∷ hs) n h tail = absurd (omega arith)

  hashes_back :
      length f.service_hashes ≡ 4
      → All IsU64 f.service_hashes
      → (read_u64_le (drop 50 bytes)
          ∷ read_u64_le (drop 58 bytes)
          ∷ read_u64_le (drop 66 bytes)
          ∷ read_u64_le (drop 74 bytes)
          ∷ [])
        ≡ f.service_hashes
  unfolding encode_index_frame
  hashes_back n h = read_hashes f.service_hashes n h (f.service_overflow ∷ rest)

  -- Decoding the 83 bytes of a record whose fields fit gives back the record, whatever follows
  -- it.
  pub decode_index_frame-encode_index_frame : IsIndexFrame f → decode_index_frame bytes ≡ f
  unfolding decode_index_frame encode_index_frame
  decode_index_frame-encode_index_frame v =
      rw
        (
          read_offset v.file_offset,
          read_len v.frame_len,
          read_min_rt v.min_realtime_ts,
          read_max_rt v.max_realtime_ts,
          read_min_mono v.min_monotonic_ts,
          read_max_mono v.max_monotonic_ts,
          read_count v.entry_count,
          hashes_back v.hash_count v.service_hashes,
        )
        refl
