-- ===== src/Segment/Frame.antt =====
-- src/segment.c `segment_write_frame`, and the reading of one frame in `segment_scan_impl`.
pub mod RoundTrip
pub mod Written
pub mod Success
use recorder.Common.{
  ℕ, zero, suc, ◌+◌, ◌-◌, ◌*◌, ◌/◌, ◌%◌, ◌^◌, bit_xor, Bool, true, false, ◌&&◌, ◌||◌, not,
}
use recorder.Common.{Option, none, some, List, [], ◌∷◌, ◌++◌, length, take, drop}
use recorder.Common.{
  leb, ltb, ◌==◌, if◌then◌else◌, Result, Errno, ok, err, unset, einval, eoverflow,
}
use recorder.Bytes.{read_u32_le, write_u32_le, recorder_crc32}
use recorder.Stdio.{Stdio, write_all, and_then}
use recorder.Segment.{SegmentFrameInfo, frame_header_size, gcm_tag_size, uint32_max, uint64_max}
use recorder.Segment.Crypto.{Crypto}
use recorder.Segment.Header.{SegmentEncryptor, written_result}

-- `nonce[SEGMENT_NONCE_PREFIX_SIZE + i] = (unsigned char)(frame_index >> (56 - i * 8))`
unfoldable pub frame_nonce : List ℕ → ℕ → List ℕ
frame_nonce prefix i =
    prefix
    ++ (i / 2 ^ 56 % 256
        ∷ i / 2 ^ 48 % 256
        ∷ i / 2 ^ 40 % 256
        ∷ i / 2 ^ 32 % 256
        ∷ i / 2 ^ 24 % 256
        ∷ i / 2 ^ 16 % 256
        ∷ i / 2 ^ 8 % 256
        ∷ i % 256
        ∷ [])

unfoldable pub encode_frame_header : ℕ → ℕ → ℕ → ℕ → List ℕ
encode_frame_header flags stored_len uncompressed_len frame_len =
    write_u32_le flags
    ++ (write_u32_le stored_len ++ (write_u32_le uncompressed_len ++ write_u32_le frame_len))

-- `tag` is there in an encrypted segment only.
abbrev pub tag_len : Option (List ℕ) → ℕ
tag_len none = 0
tag_len (some tag) = gcm_tag_size

abbrev pub tag_bytes : Option (List ℕ) → List ℕ
tag_bytes none = []
tag_bytes (some tag) = tag

unfoldable pub frame_crc : List ℕ → List ℕ → Option (List ℕ) → ℕ
frame_crc header stored none = bit_xor (recorder_crc32 header) (recorder_crc32 stored)
frame_crc header stored (some tag) =
    bit_xor (bit_xor (recorder_crc32 header) (recorder_crc32 stored)) (recorder_crc32 tag)

module _ (c : Crypto) (io : Stdio) where
  open io use {Stream}

  unfoldable pub write_tag : Option (List ℕ) → Stream → Bool × Stream
  write_tag none fp = (true, fp)
  write_tag (some tag) fp = write_all io tag fp

  -- the four writes
  unfoldable pub write_frame_parts : List ℕ → List ℕ → Option (List ℕ) → Stream → Bool × Stream
  write_frame_parts header stored tag = and_then io (write_all io header) (
      and_then io (write_all io stored)
        (and_then io (write_tag tag) (write_all io (write_u32_le (frame_crc header stored tag)))))

  pub record FrameOut : Type 0 where
    pub result : Result (Unit {0})
    pub encryptor : Option (SegmentEncryptor c io)
    pub stream : Stream

  unfoldable pub write_plain_frame : ℕ → List ℕ → ℕ → Stream → FrameOut
  write_plain_frame flags payload uncompressed_len fp =
      let n = length payload in
      let header = encode_frame_header flags n uncompressed_len (frame_header_size + n + 4) in
      let (done, fp') = write_frame_parts header payload none fp in
      record { result = written_result c io done; encryptor = none; stream = fp' }

  -- The frame counter moves on before the encryption, and stays there when it fails.
  unfoldable pub write_encrypted_frame : SegmentEncryptor c io → ℕ → List ℕ → ℕ → Stream → FrameOut
  write_encrypted_frame e flags payload uncompressed_len fp =
      let n = length payload in
      let header =
        encode_frame_header flags n uncompressed_len (frame_header_size + n + (4 + gcm_tag_size)) in
      let e' = record e { frame_index = e.frame_index + 1 } in
      elim (c.aes_gcm_encrypt e.dek (frame_nonce e.nonce_prefix e.frame_index) header payload) [
        | none ↦ record { result = err unset; encryptor = some e'; stream = fp }
        | some (encrypted, tag) ↦
            let (done, fp') = write_frame_parts header encrypted (some tag) fp in
            record { result = written_result c io done; encryptor = some e'; stream = fp' }
      ]

  -- `stored_len` is the length of `payload`.
  unfoldable pub segment_write_frame :
      Option (SegmentEncryptor c io) → ℕ → List ℕ → ℕ → Stream → FrameOut
  unfolding write_plain_frame write_encrypted_frame
  segment_write_frame none flags payload uncompressed_len fp =
      if ltb (uint32_max - frame_header_size - 4) (length payload)
      then record { result = err eoverflow; encryptor = none; stream = fp }
      else write_plain_frame flags payload uncompressed_len fp
  segment_write_frame (some e) flags payload uncompressed_len fp =
      let stay : Errno → FrameOut =
        λ x. record { result = err x; encryptor = some e; stream = fp } in
      if not e.initialized
      then stay einval
      else (if ltb (uint32_max - frame_header_size - (4 + gcm_tag_size)) (length payload)
          then stay eoverflow
          else (if e.frame_index == uint64_max
              then stay eoverflow
              else write_encrypted_frame e flags payload uncompressed_len fp))

-- What stands at the front of the rest of a segment: `short` where the loop of the scan ends,
-- `bad` where an encrypted segment is refused and a plain one ends.
pub data FrameRead : Type 0 where
  short bad : FrameRead
  frame : SegmentFrameInfo → List ℕ → List ℕ → FrameRead

-- `tag_size` is the tag's size in this segment, 16 or 0.
unfoldable pub read_frame : ℕ → List ℕ → ℕ → FrameRead
read_frame tag_size p offset =
    let stored_len = read_u32_le (drop 4 p) in
    let total_len = read_u32_le (drop 12 p) in
    let payload = take stored_len (drop frame_header_size p) in
    let tag = take tag_size (drop (frame_header_size + stored_len) p) in
    let stored_crc = read_u32_le (drop (frame_header_size + stored_len + tag_size) p) in
    let crc =
      frame_crc (take frame_header_size p) payload (if tag_size == 0 then none else some tag) in
    let expected_len = frame_header_size + stored_len + tag_size + 4 in
    let info : SegmentFrameInfo = record {
      flags = read_u32_le p;
      stored_len = stored_len;
      uncompressed_len = read_u32_le (drop 8 p);
      file_offset = offset;
      frame_len = total_len;
    } in
    if ltb (length p) (frame_header_size + 4 + tag_size)
    then short
    else (if ltb uint32_max expected_len || not (total_len == expected_len)
        then bad
        else (if ltb (length p) total_len
            then short
            else (if stored_crc == crc then frame info payload tag else bad)))
