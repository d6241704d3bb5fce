-- ===== src/Segment/Header/RoundTrip.antt =====
-- src/segment.c: `segment_parse_header` on what `segment_write_header` puts into the file.
use recorder.Common.{◌%◌, ◌^◌, ℕ, suc, ◌+◌, ◌-◌, ◌≤◌, ◌<◌, ◌^◌, ◌≡◌, refl, sym, ap, ◌∙◌, arith}
use recorder.Common.{List, [], ◌∷◌, ◌++◌, append_assoc, length, take, drop, le→leb, ==_refl}
use recorder.Common.{length-append, drop-append, drop-drop, take-append, ok}
use recorder.Bytes.{IsU32, read_u32_le, write_u32_le, recorder_crc32}
use recorder.Bytes.Words.{read_u32_le-write_u32_le}
use recorder.Bytes.Checksum.{recorder_crc32-IsU32, crc_xor-IsU32}
use recorder.Segment.{
  SegmentHeader, SegmentEncryptionInfo, segment_magic, segment_version, boot_id_size, tz_size,
  header_fixed_size,
}
use recorder.Segment.Header.{
  c_field, encode_body, encode_fixed, header_crc, decode_fields, parse_optional_extension,
  segment_parse_header, finish_header,
}
use recorder.Segment.Header.Fields.{
  IsHeader, encode_body-append, length-encode_body, c_field-append_zero, length-c_field, flat,
  read_version, read_header_size, read_flags, read_segment_seq, read_boot_seq, read_boot_id,
  read_timezone, read_realtime, read_monotonic, read_dict_len, read_magic,
}

-- One successful pass through the checks of `segment_parse_header`.
parse_steps :
    (buf ext : List ℕ) (size : ℕ) (h : SegmentHeader) (info : SegmentEncryptionInfo)
    → header_fixed_size ≤ length buf
    → take 8 buf ≡ segment_magic
    → read_u32_le (drop 8 buf) ≡ segment_version
    → read_u32_le (drop 12 buf) ≡ size
    → header_fixed_size ≤ size
    → size ≤ length buf
    → decode_fields buf ≡ h
    → take (size - header_fixed_size) (drop header_fixed_size buf) ≡ ext
    → parse_optional_extension h.flags ext (size - header_fixed_size) ≡ ok info
    → read_u32_le (drop 148 buf) ≡ header_crc (take 148 buf) ext
    → h.dict_len ≤ length buf - size
    → segment_parse_header buf ≡ ok (h, (size + h.dict_len) % 2 ^ 32, info)
unfolding segment_parse_header finish_header
parse_steps buf ext size h info h1 h2 h3 h4 h5 h6 h7 h8 h9 h10 h11 =
    rw
      (
        le→leb header_fixed_size (length buf) h1,
        h2,
        h3,
        h4,
        le→leb header_fixed_size size h5,
        le→leb size (length buf) h6,
        h7,
        h8,
        h9,
        h10,
        ==_refl (header_crc (take 148 buf) ext),
        le→leb h.dict_len (length buf - size) h11,
      )
      refl

header_crc-IsU32 : (body ext : List ℕ) → IsU32 (header_crc body ext)
unfolding header_crc
header_crc-IsU32 body ext = ground (
  arith,
  recorder_crc32-IsU32 body,
  crc_xor-IsU32 (recorder_crc32 body) (recorder_crc32 ext) (recorder_crc32-IsU32 body)
      (recorder_crc32-IsU32 ext),
)

-- The header as a reader sees it: the texts cut at their NUL and padded with NULs.
unfoldable pub canonical : SegmentHeader → ℕ → SegmentHeader
canonical h dict_len = record h {
  boot_id = c_field boot_id_size (suc boot_id_size) h.boot_id;
  timezone = c_field (tz_size - 1) tz_size h.timezone;
  dict_len = dict_len;
}

decode_fields-flat :
    (h : SegmentHeader) (extension_len dict_len : ℕ) (rest : List ℕ)
    → IsHeader h
    → IsU32 dict_len
    → decode_fields (flat h extension_len dict_len rest) ≡ canonical h dict_len
unfolding decode_fields canonical
decode_fields-flat h n d rest v fits = λ i. record {
  flags = read_flags h n d rest v.flags i;
  segment_seq = read_segment_seq h n d rest v.segment_seq i;
  boot_seq = read_boot_seq h n d rest v.boot_seq i;
  boot_id =
      (ap (λ t. t ++ (0 ∷ [])) (read_boot_id h n d rest)
          ∙ c_field-append_zero 32 32 h.boot_id (omega arith))
        i;
  timezone = (ap (λ t. t ++ (0 ∷ [])) (read_timezone h n d rest) ∙ take_zone) i;
  first_realtime_ts = read_realtime h n d rest v.first_realtime_ts i;
  first_monotonic_ts = read_monotonic h n d rest v.first_monotonic_ts i;
  dict_len = read_dict_len h n d rest fits i;
}
  where
    take_zone : take 63 (c_field 63 64 h.timezone) ++ (0 ∷ []) ≡ c_field 63 64 h.timezone
    take_zone =
        ap (λ t. take 63 t ++ (0 ∷ [])) (sym (c_field-append_zero 63 63 h.timezone (omega arith)))
        ∙ ap (λ t. t ++ (0 ∷ []))
            (take-append 63 (c_field 63 63 h.timezone) (0 ∷ [])
              (length-c_field 63 63 h.timezone (omega arith)))
        ∙ c_field-append_zero 63 63 h.timezone (omega arith)

module _ (h : SegmentHeader) (ext rest : List ℕ) (dict_len : ℕ) where
  body_part : List ℕ
  body_part = encode_body h (length ext) dict_len

  crc_part : List ℕ
  crc_part = write_u32_le (header_crc (encode_body h (length ext) dict_len) ext)

  buffer : List ℕ
  unfolding body_part crc_part
  buffer = body_part ++ (crc_part ++ (ext ++ rest))

  -- the buffer of a written segment, from its fixed header on
  buffer-eq : encode_fixed h ext dict_len ++ (ext ++ rest) ≡ buffer
  unfolding encode_fixed buffer
  buffer-eq = append_assoc (encode_body h (length ext) dict_len) _ _

  buffer-flat : buffer ≡ flat h (length ext) dict_len (crc_part ++ (ext ++ rest))
  unfolding buffer
  buffer-flat = encode_body-append h (length ext) dict_len (crc_part ++ (ext ++ rest))

  length-buffer : length buffer ≡ header_fixed_size + length ext + length rest
  unfolding buffer
  length-buffer = omega (
    arith,
    length-append body_part (crc_part ++ (ext ++ rest)),
    length-encode_body h (length ext) dict_len,
    length-append ext rest,
  )

  take_148 : take 148 buffer ≡ body_part
  unfolding buffer
  take_148 = take-append 148 body_part _ (length-encode_body h (length ext) dict_len)

  drop_148 : drop 148 buffer ≡ crc_part ++ (ext ++ rest)
  unfolding buffer
  drop_148 = drop-append 148 body_part _ (length-encode_body h (length ext) dict_len)

  drop_152 : drop 152 buffer ≡ ext ++ rest
  unfolding crc_part
  drop_152 = sym (drop-drop 4 148 buffer) ∙ ap (λ t. drop 4 t) drop_148

  crc_reads : read_u32_le (drop 148 buffer) ≡ header_crc (take 148 buffer) ext
  unfolding crc_part body_part
  crc_reads =
      ap read_u32_le drop_148
      ∙ read_u32_le-write_u32_le (header_crc body_part ext) (ext ++ rest)
          (header_crc-IsU32 body_part ext)
      ∙ ap (λ t. header_crc t ext) (sym take_148)

  parse_buffer :
      (info : SegmentEncryptionInfo)
      → IsHeader h
      → header_fixed_size + length ext < 2 ^ 32
      → IsU32 dict_len
      → dict_len ≤ length rest
      → parse_optional_extension h.flags ext (length ext) ≡ ok info
      → segment_parse_header buffer
        ≡ ok (canonical h dict_len, (header_fixed_size + length ext + dict_len) % 2 ^ 32, info)
  unfolding canonical
  parse_buffer info v small fits room e =
      parse_steps buffer ext (header_fixed_size + length ext) (canonical h dict_len) info
        (omega (arith, length-buffer)) (rw buffer-flat (read_magic h (length ext) dict_len _))
        (rw buffer-flat (read_version h (length ext) dict_len _))
        (rw buffer-flat (read_header_size h (length ext) dict_len _ small)) (omega arith)
        (omega (arith, length-buffer))
        (rw buffer-flat (decode_fields-flat h (length ext) dict_len _ v fits))
        (rw drop_152 (take-append _ ext rest (omega arith))) (rw size e) crc_reads
        (omega (arith, length-buffer))
    where
      size : header_fixed_size + length ext - header_fixed_size ≡ length ext
      size = omega arith

  -- A written header, with its extension and dictionary behind it, is read back in full.
  pub segment_parse_header-encode_fixed :
      (info : SegmentEncryptionInfo)
      → IsHeader h
      → header_fixed_size + length ext < 2 ^ 32
      → IsU32 dict_len
      → dict_len ≤ length rest
      → parse_optional_extension h.flags ext (length ext) ≡ ok info
      → segment_parse_header (encode_fixed h ext dict_len ++ (ext ++ rest))
        ≡ ok (canonical h dict_len, (header_fixed_size + length ext + dict_len) % 2 ^ 32, info)
  segment_parse_header-encode_fixed info v small fits room e =
      ap segment_parse_header buffer-eq ∙ parse_buffer info v small fits room e

pub length-encode_fixed :
    (h : SegmentHeader) (ext : List ℕ) (dict_len : ℕ)
    → length (encode_fixed h ext dict_len) ≡ header_fixed_size
unfolding encode_fixed
length-encode_fixed h ext dict_len = omega (
  arith,
  length-append (encode_body h (length ext) dict_len)
      (write_u32_le (header_crc (encode_body h (length ext) dict_len) ext)),
  length-encode_body h (length ext) dict_len,
)
