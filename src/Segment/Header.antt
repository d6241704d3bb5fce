-- ===== src/Segment/Header.antt =====
-- src/segment.c `segment_write_header` and `segment_parse_header`.
pub mod Fields
pub mod RoundTrip
pub mod Extension
pub mod Written
use recorder.Common.{◌%◌, ◌^◌, ℕ, zero, suc, ◌+◌, ◌-◌, bit_xor, Bool, true, false, ◌&&◌, not}
use recorder.Common.{Option, none, some, List, [], ◌∷◌, ◌++◌, length, take, drop, replicate}
use recorder.Common.{leb, ltb, ◌==◌, if◌then◌else◌, bytes_eq, ◌>>=◌, ◌>>◌, guard, is_some}
use recorder.Common.{Result, Errno, ok, err, unset, einval, eoverflow}
use mathlib.Core.Bool.{xor}
use mathlib.Core.Option
use recorder.Bytes.{read_u32_le, read_u64_le, write_u32_le, write_u64_le, recorder_crc32}
use recorder.Stdio.{Stdio, write_all, write_nonempty, and_then}
use recorder.Segment.{
  SegmentHeader, SegmentEncryptionInfo, segment_magic, extension_magic, segment_version,
  header_fixed_size, extension_fixed_size, nonce_prefix_size, boot_id_size, tz_size, uint32_max,
  has_flag, flag_encrypted,
}
use recorder.Segment.Crypto.{Crypto}

-- `strnlen(s, n)`
unfoldable pub strnlen : List ℕ → ℕ → ℕ
strnlen s zero = 0
strnlen [] (suc n) = 0
strnlen (c ∷ s) (suc n) = let more = suc (strnlen s n) in if c == 0 then 0 else more

-- `memset(dst, 0, size); memcpy(dst, s, strnlen(s, n));`
unfoldable pub c_field : ℕ → ℕ → List ℕ → List ℕ
c_field n size s = take (strnlen s n) s ++ replicate (size - strnlen s n) 0

-- the extension behind the fixed header of an encrypted segment
unfoldable pub encode_extension : List ℕ → List ℕ → List ℕ
encode_extension nonce_prefix wrapped_dek =
    extension_magic
    ++ (write_u32_le 1
        ++ (write_u32_le (extension_fixed_size + nonce_prefix_size + length wrapped_dek)
            ++ (write_u32_le 1
                ++ (write_u32_le 1
                    ++ (write_u32_le (length wrapped_dek)
                        ++ (write_u32_le nonce_prefix_size ++ (nonce_prefix ++ wrapped_dek)))))))

-- bytes 0 to 31 of the header
unfoldable pub encode_numbers : SegmentHeader → ℕ → List ℕ
encode_numbers header extension_len =
    segment_magic
    ++ (write_u32_le segment_version
        ++ (write_u32_le (header_fixed_size + extension_len)
            ++ (write_u32_le header.flags
                ++ (write_u64_le header.segment_seq ++ write_u32_le header.boot_seq))))

-- bytes 128 to 147
unfoldable pub encode_times : SegmentHeader → ℕ → List ℕ
encode_times header dict_len =
    write_u64_le header.first_realtime_ts
    ++ (write_u64_le header.first_monotonic_ts ++ write_u32_le dict_len)

-- `buf` up to the CRC
unfoldable pub encode_body : SegmentHeader → ℕ → ℕ → List ℕ
encode_body header extension_len dict_len =
    encode_numbers header extension_len
    ++ (c_field boot_id_size boot_id_size header.boot_id
        ++ (c_field (tz_size - 1) tz_size header.timezone ++ encode_times header dict_len))

-- `crc = recorder_crc32(buf, 148); if (extension_len != 0) crc ^= recorder_crc32(extension, …);`
unfoldable pub header_crc : List ℕ → List ℕ → ℕ
header_crc body extension =
    if length extension == 0
    then recorder_crc32 body
    else bit_xor (recorder_crc32 body) (recorder_crc32 extension)

-- the fixed header as it is written
unfoldable pub encode_fixed : SegmentHeader → List ℕ → ℕ → List ℕ
encode_fixed header extension dict_len =
    let body = encode_body header (length extension) dict_len in
    body ++ write_u32_le (header_crc body extension)

-- the numeric checks and the fields of the encryption extension, of the given size
unfoldable pub parse_extension : List ℕ → ℕ → Result SegmentEncryptionInfo
parse_extension extension extension_len = do
  guard (leb (extension_fixed_size + nonce_prefix_size) extension_len) unset
  guard (bytes_eq (take 8 extension) extension_magic) unset
  guard (read_u32_le (drop 8 extension) == 1) unset
  guard (read_u32_le (drop 12 extension) == extension_len) unset
  guard (read_u32_le (drop 16 extension) == 1) unset
  guard (read_u32_le (drop 20 extension) == 1) unset
  let wrapped_dek_len = read_u32_le (drop 24 extension)
  let nonce_prefix_len = read_u32_le (drop 28 extension)
  guard (nonce_prefix_len == nonce_prefix_size) unset
  guard (not (wrapped_dek_len == 0)) unset
  guard (wrapped_dek_len == extension_len - extension_fixed_size - nonce_prefix_len) unset
  ok record {
    wrapped_dek = take wrapped_dek_len (drop (extension_fixed_size + nonce_prefix_len) extension);
    wrapped_dek_len = wrapped_dek_len;
    nonce_prefix = take nonce_prefix_size (drop extension_fixed_size extension);
  }

abbrev pub no_encryption : SegmentEncryptionInfo
no_encryption = record { wrapped_dek = []; wrapped_dek_len = 0; nonce_prefix = replicate 4 0 }

-- An encrypted segment has an extension, any other has none.
unfoldable pub parse_optional_extension : ℕ → List ℕ → ℕ → Result SegmentEncryptionInfo
parse_optional_extension flags extension extension_len =
    if has_flag flags flag_encrypted
    then parse_extension extension extension_len
    else (if extension_len == 0 then ok no_encryption else err unset)

unfoldable pub decode_fields : List ℕ → SegmentHeader
decode_fields bytes = record {
  flags = read_u32_le (drop 16 bytes);
  segment_seq = read_u64_le (drop 20 bytes);
  boot_seq = read_u32_le (drop 28 bytes);
  boot_id = take boot_id_size (drop 32 bytes) ++ (0 ∷ []);
  timezone = take (tz_size - 1) (drop 64 bytes) ++ (0 ∷ []);
  first_realtime_ts = read_u64_le (drop 128 bytes);
  first_monotonic_ts = read_u64_le (drop 136 bytes);
  dict_len = read_u32_le (drop 144 bytes);
}

-- the checks behind the extension: the CRC, and a dictionary that lies in the buffer; the offset is
-- a sum of two `uint32_t`, which wraps
unfoldable pub finish_header :
    List ℕ → ℕ → List ℕ → SegmentEncryptionInfo → Result (SegmentHeader × ℕ × SegmentEncryptionInfo)
finish_header buf header_size extension encryption = do
  let header = decode_fields buf
  guard (read_u32_le (drop 148 buf) == header_crc (take 148 buf) extension) unset
  guard (leb header.dict_len (length buf - header_size)) unset
  ok (header, (header_size + header.dict_len) % 2 ^ 32, encryption)

-- The header, the offset of the first frame, and the key material; every failure is a plain -1.
unfoldable pub segment_parse_header : List ℕ → Result (SegmentHeader × ℕ × SegmentEncryptionInfo)
segment_parse_header buf = do
  guard (leb header_fixed_size (length buf)) unset
  guard (bytes_eq (take 8 buf) segment_magic) unset
  guard (read_u32_le (drop 8 buf) == segment_version) unset
  let header_size = read_u32_le (drop 12 buf)
  guard (leb header_fixed_size header_size && leb header_size (length buf)) unset
  let extension_len = header_size - header_fixed_size
  let extension = take extension_len (drop header_fixed_size buf)
  encryption ← parse_optional_extension (decode_fields buf).flags extension extension_len
  finish_header buf header_size extension encryption

module _ (c : Crypto) (io : Stdio) where
  open c use {PublicKey, Rng, random, wrap_dek}
  open io use {Stream}

  pub record SegmentEncryptor : Type 0 where
    pub public_key : PublicKey
    pub dek : List ℕ
    pub nonce_prefix : List ℕ
    pub frame_index : ℕ
    pub initialized : Bool

  -- the random key and nonce prefix of a segment, and the key wrapped with the public key
  pub record SegmentKeys : Type 0 where
    pub dek : List ℕ
    pub nonce_prefix : List ℕ
    pub wrapped_dek : List ℕ

  -- `||` stops at the first call that fails.
  unfoldable pub make_keys : PublicKey → Rng → Option SegmentKeys × Rng
  make_keys key g0 =
      let (dek, g1) = random 32 g0 in
      let (prefix, g2) = random nonce_prefix_size g1 in
      elim dek [
        | none ↦ (none, g1)
        | some d ↦ elim prefix [
          | none ↦ (none, g2)
          | some n ↦
              let (wrapped, g3) = wrap_dek key d g2 in
              (Option.map (λ w. record { dek = d; nonce_prefix = n; wrapped_dek = w }) wrapped, g3)
        ]
      ]

  -- the three writes, of which an empty one is skipped
  unfoldable pub write_parts : SegmentHeader → List ℕ → List ℕ → Stream → Bool × Stream
  write_parts header extension dict_bytes =
      and_then io (write_all io (encode_fixed header extension (length dict_bytes)))
        (and_then io (write_nonempty io extension) (write_nonempty io dict_bytes))

  abbrev pub written_result : Bool → Result (Unit {0})
  written_result true = ok tt
  written_result false = err unset

  pub record HeaderOut : Type 0 where
    pub result : Result (Unit {0})
    pub encryptor : Option SegmentEncryptor
    pub rng : Rng
    pub stream : Stream

  -- the part of an encrypted segment: the encryptor is ready only once all is written
  unfoldable pub write_encrypted_header :
      SegmentHeader → List ℕ → SegmentEncryptor → Rng → Stream → HeaderOut
  write_encrypted_header header dict_bytes e g fp =
      let e0 = record e { initialized = false; dek = replicate 32 0 } in
      let (keys, g') = make_keys e.public_key g in
      elim keys [
        | none ↦ record { result = err unset; encryptor = some e0; rng = g'; stream = fp }
        | some k ↦
            let extension = encode_extension k.nonce_prefix k.wrapped_dek in
            let (done, fp') = write_parts header extension dict_bytes fp in
            let ready = record e {
              dek = k.dek;
              nonce_prefix = k.nonce_prefix;
              frame_index = 0;
              initialized = true;
            } in
            if ltb (uint32_max - header_fixed_size - extension_fixed_size - nonce_prefix_size)
              (length k.wrapped_dek)
            then record { result = err eoverflow; encryptor = some e0; rng = g'; stream = fp }
            else record {
              result = written_result done;
              encryptor = some (if done then ready else e0);
              rng = g';
              stream = fp';
            }
      ]

  unfoldable pub segment_write_header :
      SegmentHeader → List ℕ → Option SegmentEncryptor → Rng → Stream → HeaderOut
  unfolding xor
  segment_write_header header dict_bytes encryptor g fp =
      let stay : Errno → HeaderOut =
        λ e. record { result = err e; encryptor = encryptor; rng = g; stream = fp } in
      if ltb uint32_max (length dict_bytes)
      then stay eoverflow
      else (if xor (has_flag header.flags flag_encrypted) (is_some encryptor)
          then stay einval
          else elim encryptor [
            | some e ↦ write_encrypted_header header dict_bytes e g fp
            | none ↦
                let (done, fp') = write_parts header [] dict_bytes fp in
                record { result = written_result done; encryptor = none; rng = g; stream = fp' }
          ])
