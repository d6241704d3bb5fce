-- ===== src/Segment/Reader/Path.antt =====
-- src/segment.c `segment_frame_reader_open` and `segment_scan_path_frame`, which does at once what
-- an open reader does in two calls.
use recorder.Common.{
  ℕ, ◌+◌, ◌-◌, ◌%◌, ◌^◌, ◌≡◌, ap, inl, inr, ◌||◌, not, Option, none, some, Option-cases,
}
use recorder.Common.{
  List, length, take, drop, replicate, ltb, leb, ◌==◌, if◌then◌else◌, Result, ok, err, unset, eio,
  eacces, ok-injective, Result-cases,
}
use recorder.Common.{◌>>=◌, ◌>>◌, guard}
use recorder.Bytes.{read_u32_le}
use recorder.Segment.{
  SegmentHeader, SegmentFrameInfo, SegmentEncryptionInfo, header_fixed_size, frame_header_size,
  gcm_tag_size, uint32_max, has_flag, flag_encrypted,
}
use recorder.Segment.Crypto.{Crypto, Codec}
use recorder.Segment.Header.{segment_parse_header}
use recorder.Segment.Frame.{frame_crc}
use recorder.Segment.Scan.{Callback, ScanState}
use recorder.Segment.Reader.{FrameScan, refused, reader_deliver, segment_frame_reader_scan}

-- What both functions read first: the header with the dictionary behind it, in `uint32_t`.
unfoldable pub read_metadata :
    List ℕ → Result (List ℕ × (SegmentHeader × ℕ × SegmentEncryptionInfo))
read_metadata file = do
  guard (leb header_fixed_size (length file)) unset
  let header_size = read_u32_le (drop 12 file)
  let dict_len = read_u32_le (drop 144 file)
  guard (leb header_fixed_size header_size) unset
  guard (leb header_size (length file)) unset
  guard (leb dict_len (length file - header_size)) unset
  let metadata = take ((header_size + dict_len) % 2 ^ 32) file
  parsed ← segment_parse_header metadata
  ok (metadata, parsed)

module _ {S : Type 0} (c : Crypto) (codec : Codec) (cb : Callback S) where
  abbrev pub Reader : Type 0
  Reader = ScanState c codec (some cb) 0

  -- what the open reader keeps, once it has the key of an encrypted segment
  abbrev pub reader_state : List ℕ → SegmentHeader → ℕ → SegmentEncryptionInfo → List ℕ → Reader
  reader_state metadata header data_offset encryption dek = record {
    header = header;
    dict_bytes = take header.dict_len (drop (data_offset - header.dict_len) metadata);
    dek = dek;
    nonce_prefix = encryption.nonce_prefix;
  }

  -- A plain segment needs no key; an encrypted one needs a key that unwraps.
  unfoldable pub unwrap_key :
      Option c.PrivateKey → SegmentHeader → SegmentEncryptionInfo → Option (List ℕ)
  unwrap_key decryptor header encryption =
      if has_flag header.flags flag_encrypted
      then elim decryptor [ none ↦ none | some key ↦ c.unwrap_dek key encryption.wrapped_dek ]
      else some (replicate 32 0)

  unfoldable pub segment_frame_reader_open : Option c.PrivateKey → List ℕ → Result (Reader × ℕ)
  segment_frame_reader_open decryptor file = elim (read_metadata file) [
    | err e ↦ err e
    | ok (metadata, (header, data_offset, encryption)) ↦
        elim (unwrap_key decryptor header encryption) [
          | none ↦ err eacces
          | some dek ↦ ok (reader_state metadata header data_offset encryption dek, data_offset)
        ]
  ]

  -- The key is unwrapped only once the frame has passed its checks.
  unfoldable pub scan_frame_at :
      Option c.PrivateKey
      → List ℕ
      → SegmentHeader
      → ℕ
      → SegmentEncryptionInfo
      → List ℕ
      → ℕ
      → ℕ
      → S
      → FrameScan S
  scan_frame_at decryptor metadata header data_offset encryption file file_offset frame_index s =
      let size = length file in
      let p = drop file_offset file in
      let tag_size = if has_flag header.flags flag_encrypted then gcm_tag_size else 0 in
      let stored_len = read_u32_le (drop 4 p) in
      let total = read_u32_le (drop 12 p) in
      let expected = frame_header_size + stored_len + tag_size + 4 in
      let payload = take stored_len (drop frame_header_size p) in
      let tag = take tag_size (drop (frame_header_size + stored_len) p) in
      let stored_crc = read_u32_le (drop (frame_header_size + stored_len + tag_size) p) in
      let crc =
        frame_crc (take frame_header_size p) payload (if tag_size == 0 then none else some tag) in
      let info : SegmentFrameInfo = record {
        flags = read_u32_le p;
        stored_len = stored_len;
        uncompressed_len = read_u32_le (drop 8 p);
        file_offset = file_offset;
        frame_len = total;
      } in
      let delivered : FrameScan S = elim (unwrap_key decryptor header encryption) [
        | none ↦ refused eacces
        | some dek ↦
            reader_deliver c codec cb (reader_state metadata header data_offset encryption dek) info
              (take frame_header_size p) payload tag frame_index s
      ] in
      if ltb file_offset data_offset || ltb (size - frame_header_size - 4) file_offset
      then refused unset
      else (if ltb uint32_max expected
            || (not (total == expected) || ltb (size - file_offset) total)
          then refused eio
          else (if stored_crc == crc then delivered else refused eio))

  unfoldable pub segment_scan_path_frame : Option c.PrivateKey → List ℕ → ℕ → ℕ → S → FrameScan S
  segment_scan_path_frame decryptor file file_offset frame_index s = elim (read_metadata file) [
    | err e ↦ refused e
    | ok (metadata, (header, data_offset, encryption)) ↦
        scan_frame_at decryptor metadata header data_offset encryption file file_offset frame_index
          s
  ]

  -- Where `segment_frame_reader_open` succeeds on a file, `segment_scan_path_frame` does the same
  -- for every offset and frame index as `segment_frame_reader_scan` on the open reader, errors
  -- included.
  pub segment_scan_path_frame-segment_frame_reader_scan :
      (decryptor : Option c.PrivateKey) (file : List ℕ) (file_offset i : ℕ) (s : S) (z : Reader)
      (data_offset : ℕ)
      → segment_frame_reader_open decryptor file ≡ ok (z, data_offset)
      → segment_scan_path_frame decryptor file file_offset i s
        ≡ segment_frame_reader_scan c codec cb z data_offset file file_offset i s
  unfolding segment_frame_reader_open segment_scan_path_frame scan_frame_at
      segment_frame_reader_scan
  segment_scan_path_frame-segment_frame_reader_scan decryptor file file_offset i s z data_offset e =
      elim (Result-cases (read_metadata file)) [
        | inr (x, bad) ↦ let wrong = rw (bad, segment_frame_reader_open) at e in cc
        | inl ((metadata, (header, start, encryption)), good) ↦
            elim (Option-cases (unwrap_key decryptor header encryption)) [
              | inl no_key ↦ let wrong = rw (good, no_key, segment_frame_reader_open) at e in cc
              | inr (dek, key) ↦
                  let opened = ok-injective _ _ (rw (good, key, segment_frame_reader_open) at e) in
                  rw (good, key, segment_scan_path_frame, scan_frame_at)
                    (ap
                      (λ (r : Reader × ℕ).
                        segment_frame_reader_scan c codec cb r.0 r.1 file file_offset i s)
                      opened)
            ]
      ]
