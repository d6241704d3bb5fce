-- ===== src/Segment/Scan.antt =====
-- src/segment.c `decompress_payload` and `segment_scan_impl`.
pub mod Frames
pub mod Files
pub mod Bounds
use recorder.Common.{ℕ, zero, suc, ◌+◌, ◌-◌, Bool, true, false, ◌&&◌, Option, none, some}
use recorder.Common.{
  List, [], ◌∷◌, length, take, drop, replicate, ltb, ◌==◌, if◌then◌else◌, is_some,
}
use recorder.Common.{Errno, eacces, eio, eoverflow, ok, err}
use recorder.Segment.{
  SegmentHeader, SegmentFrameInfo, SegmentFooter, SegmentEncryptionInfo, has_flag, flag_encrypted,
  flag_has_static_dict, flag_compact_entries, frame_flag_zstd, uint64_max, footer_size,
  gcm_tag_size, frame_header_size,
}
use recorder.Segment.Crypto.{Crypto, Codec}
use recorder.Segment.Header.{segment_parse_header}
use recorder.Segment.Frame.{FrameRead, short, bad, frame, read_frame, frame_nonce}
use recorder.Segment.Footer.{footer_at}

-- `none` is the return value -1; a result of another size than the frame says is refused.
unfoldable pub decompress_payload :
    Codec → SegmentHeader → List ℕ → SegmentFrameInfo → List ℕ → Option (List ℕ)
decompress_payload codec header dict_bytes info payload =
    if has_flag info.flags frame_flag_zstd
    then (let decoded =
          if has_flag header.flags flag_has_static_dict && ltb 0 header.dict_len
          then codec.decompress_using_dict info.uncompressed_len payload dict_bytes
          else codec.decompress info.uncompressed_len payload in
        elim decoded [
          | none ↦ none
          | some chunk ↦ if length chunk == info.uncompressed_len then some chunk else none
        ])
    else some payload

unfoldable pub verify_chunk : Codec → SegmentHeader → List ℕ → Bool
verify_chunk codec header chunk =
    if has_flag header.flags flag_compact_entries
    then codec.verify_default_chunk chunk
    else codec.verify_chunk chunk

abbrev pub no_footer : SegmentFooter
no_footer = record {
  footer_flags = 0;
  rotation_reason = 0;
  entry_count = 0;
  last_realtime_ts = 0;
  last_monotonic_ts = 0;
  present = false;
}

-- A callback returns its new state and an int, here by its 32-bit pattern; 0 goes on.
abbrev pub Callback : Type 0 → Type 0
Callback S = S → SegmentHeader → SegmentFrameInfo → List ℕ → S × ℕ

-- How a scan ends: with what it stores in the out parameters, with -1, or with the callback's
-- value. `out_of_fuel` is no end of the C loop.
pub data Scan (S : Type 0) : Type 0 where
  finished : S → SegmentHeader → SegmentFooter → ℕ → Scan S
  failed : S → Errno → Scan S
  stopped : S → ℕ → Scan S
  out_of_fuel : Scan S

-- What becomes of one valid frame.
pub data Delivery (S : Type 0) : Type 0 where
  passed : S → Delivery S
  undecodable : Delivery S
  rejected : S → ℕ → Delivery S

module _ {S : Type 0} (c : Crypto) (codec : Codec) (cb : Option (Callback S))
    (min_frame_offset : ℕ) where
  pub record ScanState : Type 0 where
    pub header : SegmentHeader
    pub dict_bytes : List ℕ
    pub dek : List ℕ
    pub nonce_prefix : List ℕ

  abbrev pub is_encrypted : ScanState → Bool
  is_encrypted z = has_flag z.header.flags flag_encrypted

  unfoldable pub plain_payload :
      ScanState → SegmentFrameInfo → List ℕ → List ℕ → List ℕ → ℕ → Option (List ℕ)
  plain_payload z info frame_header payload tag frame_index =
      if is_encrypted z
      then c.aes_gcm_decrypt z.dek (frame_nonce z.nonce_prefix frame_index) frame_header payload tag
      else some payload

  -- decryption, decompression, verification and the callback
  unfoldable pub deliver :
      ScanState → SegmentFrameInfo → List ℕ → List ℕ → List ℕ → ℕ → S → Delivery S
  deliver z info frame_header payload tag frame_index s = elim cb [
    | none ↦ passed s
    | some call ↦
        let called : Delivery S = elim (plain_payload z info frame_header payload tag frame_index) [
          | none ↦ undecodable
          | some plain ↦ elim (decompress_payload codec z.header z.dict_bytes info plain) [
            | none ↦ undecodable
            | some chunk ↦
                let (s', rc) = call s z.header info chunk in
                let outcome = if rc == 0 then passed s' else rejected s' rc in
                if verify_chunk codec z.header chunk then outcome else undecodable
          ]
        ] in
        if ltb info.file_offset min_frame_offset then passed s else called
  ]

  -- The loop; `p` is the buffer from `offset` on, and `committed_end` is `offset` at its head.
  unfoldable pub scan_loop : ScanState → ℕ → List ℕ → ℕ → ℕ → S → Scan S
  scan_loop z fuel [] offset frame_index s = finished s z.header no_footer offset
  scan_loop z zero (b ∷ bs) offset frame_index s = out_of_fuel
  scan_loop z (suc fuel) (b ∷ bs) offset frame_index s =
      let p = b ∷ bs in
      let ended = finished s z.header no_footer offset in
      let broken = if is_encrypted z then failed s eio else ended in
      elim (footer_at p) [
        | some footer ↦ finished s z.header footer (offset + footer_size)
        | none ↦ elim (read_frame (if is_encrypted z then gcm_tag_size else 0) p offset) [
          | short ↦ ended
          | bad ↦ broken
          | frame info payload tag ↦
              elim (deliver z info (take frame_header_size p) payload tag frame_index s) [
                | undecodable ↦ broken
                | rejected s' rc ↦ stopped s' rc
                | passed s' ↦
                    let more =
                      scan_loop z fuel (drop info.frame_len p) (offset + info.frame_len)
                        (frame_index + 1) s' in
                    if is_encrypted z && (frame_index == uint64_max)
                    then failed s' eoverflow
                    else more
              ]
        ]
      ]

  -- An offset that wrapped is below `dict_len`: the source then reads in front of the buffer, which
  -- is undefined, and the subtraction here stops at 0. A file of less than 4 GiB has no such offset.
  unfoldable pub segment_scan_impl : Option c.PrivateKey → List ℕ → S → Scan S
  segment_scan_impl decryptor buf s = elim (segment_parse_header buf) [
    | err e ↦ failed s e
    | ok (header, offset, encryption) ↦
        let run = λ (dek : List ℕ).
          scan_loop
            (record {
              header = header;
              dict_bytes = take header.dict_len (drop (offset - header.dict_len) buf);
              dek = dek;
              nonce_prefix = encryption.nonce_prefix;
            })
            (length buf) (drop offset buf) offset 0 s in
        if has_flag header.flags flag_encrypted && is_some cb
        then elim decryptor [
          | none ↦ failed s eacces
          | some key ↦ elim (c.unwrap_dek key encryption.wrapped_dek) [
            | none ↦ failed s eacces
            | some dek ↦ run dek
          ]
        ]
        else run (replicate 32 0)
  ]
