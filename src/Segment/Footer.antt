-- ===== src/Segment/Footer.antt =====
-- src/segment.c `segment_write_footer`, and the recognition of a footer in `segment_scan_impl`.
pub mod RoundTrip
use recorder.Common.{
  ℕ, Bool, true, ◌&&◌, Option, none, some, List, [], ◌∷◌, ◌++◌, length, take, drop,
}
use recorder.Common.{leb, ◌==◌, if◌then◌else◌, bytes_eq, Result, err, enotsup}
use recorder.Bytes.{read_u32_le, read_u64_le, write_u32_le, write_u64_le, recorder_crc32}
use recorder.Stdio.{Stdio, write_all}
use recorder.Segment.{
  SegmentFooter, footer_magic, segment_version, footer_size, has_flag, footer_flag_has_signature,
}
use recorder.Segment.Crypto.{Crypto}
use recorder.Segment.Header.{written_result}

-- the 48 bytes with `crc` at 32
unfoldable pub encode_footer_body : SegmentFooter → ℕ → List ℕ
encode_footer_body footer crc =
    write_u32_le footer.footer_flags
    ++ (write_u32_le footer.rotation_reason
        ++ (write_u64_le footer.entry_count
            ++ (write_u64_le footer.last_realtime_ts
                ++ (write_u64_le footer.last_monotonic_ts
                    ++ (write_u32_le crc ++ (write_u32_le segment_version ++ footer_magic))))))

-- The CRC is that of the bytes with 0 in its place.
unfoldable pub encode_footer : SegmentFooter → List ℕ
encode_footer footer = encode_footer_body footer (recorder_crc32 (encode_footer_body footer 0))

unfoldable pub segment_write_footer :
    (c : Crypto) (io : Stdio) → SegmentFooter → io.Stream → Result (Unit {0}) × io.Stream
segment_write_footer c io footer fp =
    let (done, fp') = write_all io (encode_footer footer) fp in
    if has_flag footer.footer_flags footer_flag_has_signature
    then (err enotsup, fp)
    else (written_result c io done, fp')

-- The footer at the front of `p`, if its magic, version and CRC are right.
unfoldable pub footer_at : List ℕ → Option SegmentFooter
footer_at p =
    let tmp = take 32 p ++ (write_u32_le 0 ++ take 12 (drop 36 p)) in
    let found : SegmentFooter = record {
      footer_flags = read_u32_le p;
      rotation_reason = read_u32_le (drop 4 p);
      entry_count = read_u64_le (drop 8 p);
      last_realtime_ts = read_u64_le (drop 16 p);
      last_monotonic_ts = read_u64_le (drop 24 p);
      present = true;
    } in
    if leb footer_size (length p)
      && (bytes_eq (take 8 (drop 40 p)) footer_magic
          && (read_u32_le (drop 36 p) == segment_version))
    then (if read_u32_le (drop 32 p) == recorder_crc32 tmp then some found else none)
    else none
