-- ===== src/Tests/PathReads.antt =====
-- Reading one frame of a segment file by its path.
use recorder.Common.{◌≡◌, refl, none, []}
use recorder.Segment.Reader.{segment_frame_reader_scan}
use recorder.Segment.Reader.Path.{
  segment_frame_reader_open, segment_scan_path_frame, read_metadata, unwrap_key,
  segment_scan_path_frame-segment_frame_reader_scan,
}
use recorder.Bytes.{read_u32_le, read_u64_le, octet, recorder_crc32}
use recorder.Segment.Header.{
  encode_fixed, encode_body, encode_numbers, c_field, strnlen, encode_times, segment_parse_header,
  parse_optional_extension, decode_fields, finish_header, header_crc, parse_extension,
}
use recorder.Segment.Header.RoundTrip.{canonical}
use recorder.Segment.Frame.{encode_frame_header, frame_crc}
use recorder.Segment.Frame.RoundTrip.{encode_frame}
use recorder.Segment.Scan.Frames.{encode_frames}
use recorder.Segment.Scan.Files.{plain_segment}
use recorder.Tests.Fixtures.{toy_crypto, toy_codec}
use recorder.Tests.SegmentFiles.{collect, file_of_one, opened_one}

segment_scan_path_frame_example :
    segment_scan_path_frame toy_crypto toy_codec collect none file_of_one 152 0 []
    ≡ segment_frame_reader_scan toy_crypto toy_codec collect opened_one 152 file_of_one 152 0 []
unfolding segment_frame_reader_open read_metadata plain_segment encode_fixed encode_body
    encode_numbers c_field strnlen encode_times encode_frames encode_frame encode_frame_header
    read_u32_le octet segment_parse_header parse_optional_extension decode_fields read_u64_le
    recorder_crc32 frame_crc finish_header header_crc parse_extension unwrap_key canonical
segment_scan_path_frame_example =
    segment_scan_path_frame-segment_frame_reader_scan toy_crypto toy_codec collect none file_of_one
      152 0 [] opened_one 152 refl
