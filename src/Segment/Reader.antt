-- ===== src/Segment/Reader.antt =====
-- src/segment.c `segment_read_path_header`, which reads no more of a file than its header and
-- dictionary, and `segment_frame_reader_scan`, which reads one frame at a given place.
pub mod Agrees
pub mod Path
use recorder.Common.{ℕ, ◌+◌, ◌-◌, ◌%◌, ◌^◌, Bool, true, false, ◌&&◌, ◌||◌, not, Option, none, some}
use recorder.Common.{
  List, [], length, take, drop, ltb, leb, ◌==◌, if◌then◌else◌, Result, ok, err, Errno, unset, eio,
}
use recorder.Common.{◌>>=◌, ◌>>◌, guard}
use recorder.Bytes.{read_u32_le}
use recorder.Segment.{
  SegmentHeader, SegmentFrameInfo, header_fixed_size, frame_header_size, gcm_tag_size, uint32_max,
}
use recorder.Segment.Crypto.{Crypto, Codec}
use recorder.Segment.Header.{segment_parse_header}
use recorder.Segment.Frame.{frame_crc}
use recorder.Segment.Scan.{
  Callback, ScanState, is_encrypted, plain_payload, decompress_payload, verify_chunk,
}

-- The header, the offset of the first frame and the size of the file. The sum of the two lengths is
-- one of `uint32_t`.
unfoldable pub segment_read_path_header : List ℕ → Result (SegmentHeader × ℕ × ℕ)
segment_read_path_header file = do
  guard (leb header_fixed_size (length file)) unset
  let header_size = read_u32_le (drop 12 file)
  let dict_len = read_u32_le (drop 144 file)
  guard (leb header_fixed_size header_size) unset
  guard (leb header_size (length file)) unset
  guard (leb dict_len (length file - header_size)) unset
  (header, data_offset, encryption) ←
      segment_parse_header (take ((header_size + dict_len) % 2 ^ 32) file)
  ok (header, data_offset, length file)

-- -1, or what the callback made of its state and returned
pub data FrameScan (S : Type 0) : Type 0 where
  refused : Errno → FrameScan S
  called : S → ℕ → FrameScan S

module _ {S : Type 0} (c : Crypto) (codec : Codec) (cb : Callback S) where
  -- from the checked frame on: decryption, decompression, verification and the callback
  unfoldable pub reader_deliver :
      ScanState c codec (some cb) 0
      → SegmentFrameInfo
      → List ℕ
      → List ℕ
      → List ℕ
      → ℕ
      → S
      → FrameScan S
  reader_deliver z info frame_header payload tag frame_index s =
      elim (plain_payload c codec (some cb) 0 z info frame_header payload tag frame_index) [
        | none ↦ refused eio
        | some plain ↦ elim (decompress_payload codec z.header z.dict_bytes info plain) [
          | none ↦ refused unset
          | some chunk ↦
              let (s', rc) = cb s z.header info chunk in
              if verify_chunk codec z.header chunk then called s' rc else refused unset
        ]
      ]

  -- `z` is what the open reader keeps, with `data_offset` and the bytes of the file.
  unfoldable pub segment_frame_reader_scan :
      ScanState c codec (some cb) 0 → ℕ → List ℕ → ℕ → ℕ → S → FrameScan S
  segment_frame_reader_scan z data_offset file file_offset frame_index s =
      let size = length file in
      let p = drop file_offset file in
      let tag_size = if is_encrypted c codec (some cb) 0 z then gcm_tag_size else 0 in
      let stored_len = read_u32_le (drop 4 p) in
      let total = read_u32_le (drop 12 p) in
      let expected = frame_header_size + stored_len + tag_size + 4 in
      let payload = take stored_len (drop frame_header_size p) in
      let tag = take tag_size (drop (frame_header_size + stored_len) p) in
      let stored_crc = read_u32_le (drop (frame_header_size + stored_len + tag_size) p) in
      let crc =
        frame_crc (take frame_header_size p) payload (if tag_size == 0 then none else some tag) in
      let info : SegmentFrameInfo = record {
        flags = read_u32_le p;
        stored_len = stored_len;
        uncompressed_len = read_u32_le (drop 8 p);
        file_offset = file_offset;
        frame_len = total;
      } in
      let delivered = reader_deliver z info (take frame_header_size p) payload tag frame_index s in
      if ltb file_offset data_offset || ltb (size - frame_header_size - 4) file_offset
      then refused unset
      else (if ltb uint32_max expected
            || (not (total == expected) || ltb (size - file_offset) total)
          then refused eio
          else (if stored_crc == crc then delivered else refused eio))
