-- ===== src/Tests/SegmentFiles.antt =====
-- Segment files: headers, frames, footers and scans.
use recorder.Common.{
  ◌%◌, ◌^◌, ℕ, ◌+◌, ◌^◌, ◌≡◌, refl, drop, arith, some, none, List, [], ◌∷◌, ◌++◌, true, take,
  length, ok, replicate,
}
use recorder.Bytes.{read_u32_le, read_u64_le, write_u32_le, write_u64_le, octet}
use recorder.Bytes.Words.{read_u32_le-write_u32_le, read_u64_le-write_u64_le}
use recorder.Segment.{header_fixed_size}
use recorder.Segment.Header.{
  segment_write_header, segment_parse_header, no_encryption, encode_fixed, encode_body,
  encode_numbers, encode_times, c_field, strnlen, write_parts, SegmentKeys, make_keys,
  write_encrypted_header, encode_extension, SegmentEncryptor,
}
use recorder.Segment.Header.RoundTrip.{canonical}
use recorder.Segment.Header.Written.{
  segment_parse_header-segment_write_header_plain,
  segment_parse_header-segment_write_header_encrypted,
}
use recorder.Segment.Frame.{segment_write_frame, frame, read_frame, encode_frame_header}
use recorder.Segment.Frame.RoundTrip.{read_frame-encode_frame, encode_frame, stored_info}
use recorder.Segment.Frame.Written.{
  WholeOrTorn, plain_frame, segment_write_frame-plain, segment_write_frame-encrypted,
}
use recorder.Segment.Footer.{footer_at, encode_footer, encode_footer_body}
use recorder.Segment.Footer.RoundTrip.{footer_at-encode_footer}
use recorder.Segment.Scan.{
  Callback, finished, segment_scan_impl, no_footer, deliver, plain_payload, decompress_payload,
  verify_chunk,
}
use recorder.Segment.Scan.Frames.{encode_frames, deliver_all, frames_size}
use recorder.Segment.Scan.Files.{
  plain_segment, plain_state, segment_scan_impl-closed, segment_scan_impl-torn,
  length-plain_segment,
}
use recorder.Segment.Scan.Bounds.{EndsWithin, segment_scan_impl-EndsWithin}
use recorder.Segment.Frame.{frame_crc}
use recorder.Bytes.{recorder_crc32}
use recorder.Segment.Reader.Path.{Reader, reader_state}
use recorder.Segment.Reader.{segment_frame_reader_scan}
use recorder.Segment.Reader.Agrees.{Matches, segment_frame_reader_scan-Matches}
use recorder.Stdio.{write_all, write_nonempty}
use recorder.Tests.Fixtures.{
  list_io, toy_crypto, toy_codec, plain_header, secret_header, first_frame, second_frame,
  closing_footer, plain_header-IsHeader, secret_header-IsHeader, first_frame-IsStored,
  second_frame-IsStored, closing_footer-IsFooter,
}

-- a callback that collects the chunks
abbrev pub collect : Callback (List (List ℕ))
collect s header info chunk = (s ++ (chunk ∷ []), 0)

read_u32_le-write_u32_le_example : read_u32_le (write_u32_le 0x01020304 ++ (9 ∷ [])) ≡ 0x01020304
read_u32_le-write_u32_le_example = read_u32_le-write_u32_le 0x01020304 (9 ∷ []) (omega arith)

read_u64_le-write_u64_le_example : read_u64_le (write_u64_le (2 ^ 40 + 7) ++ (9 ∷ [])) ≡ 2 ^ 40 + 7
read_u64_le-write_u64_le_example = read_u64_le-write_u64_le (2 ^ 40 + 7) (9 ∷ []) (omega arith)

plain_example :
    segment_parse_header
      ((segment_write_header toy_crypto list_io plain_header (6 ∷ []) none 0 []).stream ++ (1 ∷ []))
    ≡ ok (canonical plain_header 1, 153, no_encryption)
unfolding segment_write_header write_parts write_all write_nonempty encode_fixed encode_body
    encode_numbers c_field strnlen encode_times
plain_example =
    segment_parse_header-segment_write_header_plain toy_crypto list_io plain_header (6 ∷ [])
      (1 ∷ []) 0 [] plain_header-IsHeader refl refl refl

read_frame-encode_frame_example :
    read_frame 0 (encode_frame first_frame ++ (7 ∷ [])) 152
    ≡ frame (stored_info first_frame 152) (1 ∷ 2 ∷ 3 ∷ []) []
read_frame-encode_frame_example =
    read_frame-encode_frame first_frame (7 ∷ []) 0 first_frame-IsStored 152

footer_at-encode_footer_example :
    footer_at (encode_footer closing_footer ++ (7 ∷ [])) ≡ some closing_footer
footer_at-encode_footer_example =
    footer_at-encode_footer closing_footer (7 ∷ []) closing_footer-IsFooter

abbrev ready : SegmentEncryptor toy_crypto list_io
ready = record {
  public_key = 3;
  dek = 1 ∷ 2 ∷ [];
  nonce_prefix = 1 ∷ 1 ∷ 1 ∷ 1 ∷ [];
  frame_index = 0;
  initialized = true;
}

encrypted_example :
    (k : SegmentKeys toy_crypto list_io) × ((make_keys toy_crypto list_io 3 0).0 ≡ some k)
    × ((segment_write_header toy_crypto list_io secret_header [] (some ready) 0 []).encryptor
        ≡ some (record ready {
          dek = k.dek;
          nonce_prefix = k.nonce_prefix;
          frame_index = 0;
          initialized = true;
        }))
    × (segment_parse_header (
          (segment_write_header toy_crypto list_io secret_header [] (some ready) 0 []).stream ++ [])
        ≡ ok (
          canonical secret_header 0,
          (header_fixed_size + (36 + length k.wrapped_dek) + 0) % 2 ^ 32,
          record {
            wrapped_dek = k.wrapped_dek;
            wrapped_dek_len = length k.wrapped_dek;
            nonce_prefix = k.nonce_prefix;
          },
        ))
unfolding segment_write_header write_encrypted_header make_keys write_parts write_all write_nonempty
    encode_fixed encode_body encode_numbers c_field strnlen encode_times encode_extension
encrypted_example =
    segment_parse_header-segment_write_header_encrypted toy_crypto list_io secret_header [] [] ready
      0 [] secret_header-IsHeader refl refl refl

segment_write_frame-plain_example :
    WholeOrTorn toy_crypto list_io
      (plain_frame toy_crypto list_io 0 (1 ∷ 2 ∷ []) 2)
      (4 ∷ [])
      (segment_write_frame toy_crypto list_io none 0 (1 ∷ 2 ∷ []) 2 (4 ∷ [])).result
      (segment_write_frame toy_crypto list_io none 0 (1 ∷ 2 ∷ []) 2 (4 ∷ [])).stream
segment_write_frame-plain_example =
    segment_write_frame-plain toy_crypto list_io 0 2 (1 ∷ 2 ∷ []) (4 ∷ []) (omega arith)

segment_write_frame-encrypted_example :
    WholeOrTorn toy_crypto list_io
      (record {
        flags = 0;
        uncompressed_len = 2;
        payload = 1 ∷ 2 ∷ [];
        tag = some (replicate 16 5);
      })
      (4 ∷ [])
      (segment_write_frame toy_crypto list_io (some ready) 0 (1 ∷ 2 ∷ []) 2 (4 ∷ [])).result
      (segment_write_frame toy_crypto list_io (some ready) 0 (1 ∷ 2 ∷ []) 2 (4 ∷ [])).stream
    × ((segment_write_frame toy_crypto list_io (some ready) 0 (1 ∷ 2 ∷ []) 2 (4 ∷ [])).encryptor
        ≡ some (record ready { frame_index = 1 }))
segment_write_frame-encrypted_example =
    segment_write_frame-encrypted toy_crypto list_io ready 0 2 (1 ∷ 2 ∷ []) (1 ∷ 2 ∷ [])
      (replicate 16 5) (4 ∷ []) refl (omega arith) (omega arith) refl

segment_scan_impl-closed_example :
    segment_scan_impl toy_crypto toy_codec
      (some collect)
      0
      none
      (plain_segment plain_header
        (6 ∷ [])
        (first_frame ∷ second_frame ∷ [])
        (encode_footer closing_footer))
      []
    ≡ finished ((1 ∷ 2 ∷ 3 ∷ []) ∷ (8 ∷ 9 ∷ []) ∷ []) (canonical plain_header 1) closing_footer (
        length (
          plain_segment plain_header
            (6 ∷ [])
            (first_frame ∷ second_frame ∷ [])
            (encode_footer closing_footer)))
unfolding footer_at encode_frame encode_frames encode_footer deliver_all deliver plain_payload
    canonical encode_frame_header encode_footer_body octet decompress_payload verify_chunk
segment_scan_impl-closed_example =
    segment_scan_impl-closed toy_crypto toy_codec (some collect) 0 none plain_header (6 ∷ [])
      (first_frame ∷ second_frame ∷ []) closing_footer [] ((1 ∷ 2 ∷ 3 ∷ []) ∷ (8 ∷ 9 ∷ []) ∷ [])
      plain_header-IsHeader refl (omega arith) (first_frame-IsStored, (second_frame-IsStored, tt))
      (refl, (refl, tt)) closing_footer-IsFooter refl (omega arith)

segment_scan_impl-torn_example :
    segment_scan_impl toy_crypto toy_codec
      (some collect)
      0
      none
      (plain_segment plain_header (6 ∷ []) (first_frame ∷ []) (take 18 (encode_frame second_frame)))
      []
    ≡ finished ((1 ∷ 2 ∷ 3 ∷ []) ∷ []) (canonical plain_header 1) no_footer 176
unfolding footer_at encode_frame encode_frames deliver_all deliver plain_payload canonical
    frames_size encode_frame_header decompress_payload verify_chunk
segment_scan_impl-torn_example =
    segment_scan_impl-torn toy_crypto toy_codec (some collect) 0 none plain_header (6 ∷ [])
      (first_frame ∷ []) second_frame 18 [] ((1 ∷ 2 ∷ 3 ∷ []) ∷ []) plain_header-IsHeader refl
      (omega arith) (first_frame-IsStored, tt) second_frame-IsStored (omega arith) (refl, tt) refl
      refl (omega arith)

abbrev pub file_of_one : List ℕ
file_of_one = plain_segment plain_header [] (first_frame ∷ []) []

segment_scan_impl-EndsWithin_example :
    EndsWithin 152
      (length file_of_one)
      (segment_scan_impl toy_crypto toy_codec (some collect) 0 none file_of_one [])
unfolding encode_frame frames_size
segment_scan_impl-EndsWithin_example =
    segment_scan_impl-EndsWithin toy_crypto toy_codec (some collect) 0 none file_of_one []
      (omega (arith, length-plain_segment plain_header [] (first_frame ∷ []) []))

segment_frame_reader_scan-Matches_example :
    Matches
      (deliver toy_crypto toy_codec
        (some collect)
        0
        (plain_state toy_crypto toy_codec (some collect) 0 none plain_header [] (first_frame ∷ []))
        (stored_info first_frame 152)
        (take 16 (drop 152 file_of_one))
        (1 ∷ 2 ∷ 3 ∷ [])
        []
        0
        [])
      (segment_frame_reader_scan toy_crypto toy_codec collect
        (plain_state toy_crypto toy_codec (some collect) 0 none plain_header [] (first_frame ∷ []))
        152
        file_of_one
        152
        0
        [])
unfolding plain_segment encode_fixed encode_body encode_numbers c_field strnlen encode_times
    read_frame encode_frames encode_frame encode_frame_header canonical read_u32_le octet frame_crc
    recorder_crc32
segment_frame_reader_scan-Matches_example =
    segment_frame_reader_scan-Matches toy_crypto toy_codec collect
      (plain_state toy_crypto toy_codec (some collect) 0 none plain_header [] (first_frame ∷ []))
      152 file_of_one 152 0 [] (stored_info first_frame 152) (1 ∷ 2 ∷ 3 ∷ []) [] (omega arith)
      (omega arith) refl

abbrev pub opened_one : Reader toy_crypto toy_codec collect
opened_one =
    reader_state toy_crypto toy_codec collect file_of_one (canonical plain_header 0) 152
      no_encryption (replicate 32 0)
