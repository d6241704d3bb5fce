-- ===== src/Segment/Header/Written.antt =====
-- `segment_write_header` against `segment_parse_header`: what a reader finds in the file.
use mathlib.Core.Option
use recorder.Common.{
  ◌%◌, ◌^◌, ℕ, ◌+◌, ◌-◌, ◌≤◌, ◌≡◌, ◌≢◌, refl, sym, ap, ◌∙◌, arith, Option, some, none,
}
use recorder.Common.{List, [], ◌++◌, append_assoc, length, true, false, take_all, length-append}
use recorder.Common.{ok, le→ltb_false, lt→ltb, Option-cases, Bool, Bool-cases, inl, inr}
use native.Mathlib.Decide.{dec_lt}
use recorder.Stdio.{
  Stdio, Wrote, write_all-Wrote, write_nonempty-Wrote, and_then-Wrote, write_all, write_nonempty,
  and_then,
}
use recorder.Segment.Header.Extension.{length-encode_extension, parse_extension-encode_extension}
use recorder.Segment.{
  SegmentHeader, SegmentEncryptionInfo, has_flag, flag_encrypted, header_fixed_size, uint32_max,
}
use recorder.Segment.Crypto.{Crypto}
use recorder.Segment.Header.{
  SegmentEncryptor, SegmentKeys, HeaderOut, make_keys, write_encrypted_header, encode_extension,
  segment_write_header, segment_parse_header, write_parts, encode_fixed, written_result,
  no_encryption, parse_optional_extension,
}
use recorder.Segment.Header.Fields.{IsHeader}
use recorder.Segment.Header.RoundTrip.{canonical, segment_parse_header-encode_fixed}

module _ (c : Crypto) (io : Stdio) where
  open c use {Rng}
  open io use {Stream, written}

  -- the bytes of a header, its extension and its dictionary
  abbrev pub file_bytes : SegmentHeader → List ℕ → List ℕ → List ℕ
  file_bytes h ext dict = encode_fixed h ext (length dict) ++ (ext ++ dict)

  pub write_parts-Wrote :
      (h : SegmentHeader) (ext dict : List ℕ) (fp : Stream)
      → Wrote io (file_bytes h ext dict) fp (write_parts c io h ext dict fp)
  unfolding write_parts
  write_parts-Wrote h ext dict fp =
      and_then-Wrote io fixed (ext ++ dict) fp (write_all io fixed)
        (and_then io (write_nonempty io ext) (write_nonempty io dict)) (write_all-Wrote io fixed fp)
        (λ s.
          and_then-Wrote io ext dict s (write_nonempty io ext) (write_nonempty io dict)
            (write_nonempty-Wrote io ext s) (write_nonempty-Wrote io dict))
    where
      fixed : List ℕ
      fixed = encode_fixed h ext (length dict)

  file_bytes-append :
      (h : SegmentHeader) (ext dict rest : List ℕ)
      → file_bytes h ext dict ++ rest ≡ encode_fixed h ext (length dict) ++ (ext ++ (dict ++ rest))
  file_bytes-append h ext dict rest =
      append_assoc (encode_fixed h ext (length dict)) (ext ++ dict) rest
      ∙ ap (λ t. encode_fixed h ext (length dict) ++ t) (append_assoc ext dict rest)

  -- what a successful sequence of writes has added
  parts_stored :
      (h : SegmentHeader) (ext dict : List ℕ) (fp : Stream)
      → (write_parts c io h ext dict fp).0 ≡ true
      → written (write_parts c io h ext dict fp).1 ≡ written fp ++ file_bytes h ext dict
  parts_stored h ext dict fp e =
      let w = write_parts-Wrote h ext dict fp in
      w.stored ∙ ap (λ t. written fp ++ t) (take_all w.count (file_bytes h ext dict) (w.whole e))

  plain_parts :
      (h : SegmentHeader) (dict : List ℕ) (g : Rng) (fp : Stream)
      → has_flag h.flags flag_encrypted ≡ false
      → length dict ≤ uint32_max
      → segment_write_header c io h dict none g fp ≡ record {
        result = written_result c io (write_parts c io h [] dict fp).0;
        encryptor = none;
        rng = g;
        stream = (write_parts c io h [] dict fp).1;
      }
  unfolding segment_write_header
  plain_parts h dict g fp e fits = rw (le→ltb_false uint32_max (length dict) fits, e) refl

  written_result-ok : (b : Bool) → written_result c io b ≡ ok tt → b ≡ true
  written_result-ok true e = refl
  written_result-ok false e = cc

  too_long :
      (h : SegmentHeader) (dict : List ℕ) (enc : Option (SegmentEncryptor c io)) (g : Rng)
      (fp : Stream)
      → (segment_write_header c io h dict enc g fp).result ≡ ok tt
      → length dict ≤ uint32_max
  unfolding segment_write_header
  too_long h dict enc g fp e = elim (dec_lt uint32_max (length dict)) [
    | yes long ↦ cc (rw (lt→ltb uint32_max (length dict) long) at e)
    | no short ↦ omega arith
  ]

  -- When `segment_write_header` succeeds without an encryptor on an empty stream, for a header
  -- whose fields fit and whose flags do not say encrypted, `segment_parse_header` of the bytes,
  -- whatever follows them, gives back the header with its texts in canonical form and the offset
  -- behind the dictionary modulo 2^32.
  pub segment_parse_header-segment_write_header_plain :
      (h : SegmentHeader) (dict rest : List ℕ) (g : Rng) (fp : Stream)
      → IsHeader h
      → has_flag h.flags flag_encrypted ≡ false
      → written fp ≡ []
      → (segment_write_header c io h dict none g fp).result ≡ ok tt
      → segment_parse_header (written (segment_write_header c io h dict none g fp).stream ++ rest)
        ≡ ok (canonical h (length dict), (header_fixed_size + length dict) % 2 ^ 32, no_encryption)
  unfolding parse_optional_extension
  segment_parse_header-segment_write_header_plain h dict rest g fp v plain empty e =
      let fits = too_long h dict none g fp e in
      let run = plain_parts h dict g fp plain fits in
      let stored = parts_stored h [] dict fp (written_result-ok _ (rw run at e)) in
      ap (λ (out : HeaderOut c io). segment_parse_header (written out.stream ++ rest)) run
      ∙ ap (λ t. segment_parse_header (t ++ rest))
          (stored ∙ ap (λ t. t ++ file_bytes h [] dict) empty)
      ∙ ap segment_parse_header (file_bytes-append h [] dict rest)
      ∙ segment_parse_header-encode_fixed h [] (dict ++ rest) (length dict) no_encryption v
          (omega arith) (omega arith) (omega (arith, length-append dict rest)) (rw plain refl)
      ∙ ap (λ n. ok (canonical h (length dict), n % 2 ^ 32, no_encryption))
          (let e : header_fixed_size + 0 + length dict ≡ header_fixed_size + length dict =
              omega arith in
            e)

  make_keys_shape :
      (key : c.PublicKey) (g : Rng) (k : SegmentKeys c io)
      → (make_keys c io key g).0 ≡ some k
      → (length k.nonce_prefix ≡ 4) × (k.wrapped_dek ≢ [])
  unfolding make_keys
  make_keys_shape key g k e = elim (Option-cases (c.random 32 g).0) [
    | inl n1 ↦ cc (rw (n1, make_keys) at e)
    | inr (d, e1) ↦ elim (Option-cases (c.random 4 (c.random 32 g).1).0) [
      | inl n2 ↦ cc (rw (e1, n2, make_keys) at e)
      | inr (n, e2) ↦ elim (Option-cases (c.wrap_dek key d (c.random 4 (c.random 32 g).1).1).0) [
        | inl n3 ↦ cc (rw (e1, e2, n3, Option.map, make_keys) at e)
        | inr (w, e3) ↦
            let made : some (record { dek = d; nonce_prefix = n; wrapped_dek = w }) ≡ some k =
              rw (e1, e2, e3, Option.map, make_keys) at e in
            let same : record { dek = d; nonce_prefix = n; wrapped_dek = w } ≡ k = cc made in
            (
              ap (λ (x : SegmentKeys c io). length x.nonce_prefix) (sym same)
                  ∙ c.random_length 4 (c.random 32 g).1 n e2,
              λ z.
                  c.wrap_dek_nonempty key d _ w e3
                    (ap (λ (x : SegmentKeys c io). x.wrapped_dek) same ∙ z),
            )
      ]
    ]
  ]

  -- what a successful run on an encryptor leaves
  encrypted_run :
      (h : SegmentHeader) (dict : List ℕ) (e : SegmentEncryptor c io) (g : Rng) (fp : Stream)
      → (write_encrypted_header c io h dict e g fp).result ≡ ok tt
      → (k : SegmentKeys c io) × ((make_keys c io e.public_key g).0 ≡ some k)
        × (length k.wrapped_dek ≤ uint32_max - 152 - 32 - 4)
        × ((write_parts c io h (encode_extension k.nonce_prefix k.wrapped_dek) dict fp).0 ≡ true)
        × ((write_encrypted_header c io h dict e g fp).stream
            ≡ (write_parts c io h (encode_extension k.nonce_prefix k.wrapped_dek) dict fp).1)
        × ((write_encrypted_header c io h dict e g fp).encryptor
            ≡ some (record e {
              dek = k.dek;
              nonce_prefix = k.nonce_prefix;
              frame_index = 0;
              initialized = true;
            }))
  unfolding write_encrypted_header
  encrypted_run h dict e g fp done = elim (Option-cases (make_keys c io e.public_key g).0) [
    | inl no_keys ↦ cc (rw (no_keys, write_encrypted_header) at done)
    | inr (k, keys) ↦ elim (dec_lt (uint32_max - 152 - 32 - 4) (length k.wrapped_dek)) [
      | yes long ↦ cc (
          rw
            (
              keys,
              lt→ltb (uint32_max - 152 - 32 - 4) (length k.wrapped_dek) long,
              write_encrypted_header,
            )
            at done)
      | no short ↦
          elim (Bool-cases
            (write_parts c io h (encode_extension k.nonce_prefix k.wrapped_dek) dict fp).0) [
              | inr failed ↦ cc (
                  rw
                    (
                      keys,
                      le→ltb_false (uint32_max - 152 - 32 - 4) (length k.wrapped_dek) (omega arith),
                      failed,
                      write_encrypted_header,
                    )
                    at done)
              | inl whole ↦ (
                k,
                keys,
                omega arith,
                whole,
                rw
                    (
                      keys,
                      le→ltb_false (uint32_max - 152 - 32 - 4) (length k.wrapped_dek) (omega arith),
                      write_encrypted_header,
                    )
                    refl,
                rw
                    (
                      keys,
                      le→ltb_false (uint32_max - 152 - 32 - 4) (length k.wrapped_dek) (omega arith),
                      whole,
                      write_encrypted_header,
                    )
                    refl,
              )
            ]
    ]
  ]

  abbrev ext : SegmentKeys c io → List ℕ
  ext k = encode_extension k.nonce_prefix k.wrapped_dek

  abbrev info : SegmentKeys c io → SegmentEncryptionInfo
  info k = record {
    wrapped_dek = k.wrapped_dek;
    wrapped_dek_len = length k.wrapped_dek;
    nonce_prefix = k.nonce_prefix;
  }

  -- the bytes of a whole encrypted header are read back
  encrypted_bytes :
      (h : SegmentHeader) (dict rest : List ℕ) (k : SegmentKeys c io) (fp : Stream)
      → IsHeader h
      → has_flag h.flags flag_encrypted ≡ true
      → written fp ≡ []
      → length dict ≤ uint32_max
      → length k.wrapped_dek ≤ uint32_max - 152 - 32 - 4
      → (write_parts c io h (encode_extension k.nonce_prefix k.wrapped_dek) dict fp).0 ≡ true
      → length k.nonce_prefix ≡ 4
      → k.wrapped_dek ≢ []
      → segment_parse_header (
          written (write_parts c io h (encode_extension k.nonce_prefix k.wrapped_dek) dict fp).1
          ++ rest)
        ≡ ok (
          canonical h (length dict),
          (header_fixed_size + (36 + length k.wrapped_dek) + length dict) % 2 ^ 32,
          record {
            wrapped_dek = k.wrapped_dek;
            wrapped_dek_len = length k.wrapped_dek;
            nonce_prefix = k.nonce_prefix;
          },
        )
  unfolding parse_optional_extension
  encrypted_bytes h dict rest k fp v flag empty fits small whole four ne =
      let size = length-encode_extension k.nonce_prefix k.wrapped_dek four in
      let parsed =
        parse_extension-encode_extension k.nonce_prefix k.wrapped_dek four ne (omega arith) in
      ap (λ t. segment_parse_header (t ++ rest))
        (parts_stored h (ext k) dict fp whole ∙ ap (λ t. t ++ file_bytes h (ext k) dict) empty)
      ∙ ap segment_parse_header (file_bytes-append h (ext k) dict rest)
      ∙ segment_parse_header-encode_fixed h (ext k) (dict ++ rest) (length dict) (info k) v
          (omega arith) (omega arith) (omega (arith, length-append dict rest))
          (rw (flag, size) parsed)
      ∙ ap (λ n. ok (canonical h (length dict), n % 2 ^ 32, info k))
          (ap (λ n. header_fixed_size + n + length dict) size)

  to_encrypted :
      (h : SegmentHeader) (dict : List ℕ) (e : SegmentEncryptor c io) (g : Rng) (fp : Stream)
      → has_flag h.flags flag_encrypted ≡ true
      → length dict ≤ uint32_max
      → segment_write_header c io h dict (some e) g fp ≡ write_encrypted_header c io h dict e g fp
  unfolding segment_write_header
  to_encrypted h dict e g fp flag fits = rw (le→ltb_false uint32_max (length dict) fits, flag) refl

  -- When `segment_write_header` succeeds with an encryptor on an empty stream, for a header whose
  -- fields fit and whose flags say encrypted, the encryptor is ready with the fresh key and nonce
  -- prefix and frame index 0, and `segment_parse_header` of the bytes, whatever follows them,
  -- gives back the header with its texts in canonical form, the offset behind the dictionary
  -- modulo 2^32, and the wrapped key and nonce prefix.
  pub segment_parse_header-segment_write_header_encrypted :
      (h : SegmentHeader) (dict rest : List ℕ) (e : SegmentEncryptor c io) (g : Rng) (fp : Stream)
      → IsHeader h
      → has_flag h.flags flag_encrypted ≡ true
      → written fp ≡ []
      → (segment_write_header c io h dict (some e) g fp).result ≡ ok tt
      → (k : SegmentKeys c io) × ((make_keys c io e.public_key g).0 ≡ some k)
        × ((segment_write_header c io h dict (some e) g fp).encryptor
            ≡ some (record e {
              dek = k.dek;
              nonce_prefix = k.nonce_prefix;
              frame_index = 0;
              initialized = true;
            }))
        × (segment_parse_header
              (written (segment_write_header c io h dict (some e) g fp).stream ++ rest)
            ≡ ok (
              canonical h (length dict),
              (header_fixed_size + (36 + length k.wrapped_dek) + length dict) % 2 ^ 32,
              record {
                wrapped_dek = k.wrapped_dek;
                wrapped_dek_len = length k.wrapped_dek;
                nonce_prefix = k.nonce_prefix;
              },
            ))
  segment_parse_header-segment_write_header_encrypted h dict rest e g fp v flag empty done =
      let fits = too_long h dict (some e) g fp done in
      let run = to_encrypted h dict e g fp flag fits in
      let (k, keys, small, whole, stream, ready) = encrypted_run h dict e g fp (rw run at done) in
      let (four, ne) = make_keys_shape e.public_key g k keys in
      (
        k,
        keys,
        rw run ready,
        ap (λ (out : HeaderOut c io). segment_parse_header (written out.stream ++ rest)) run
            ∙ ap (λ s. segment_parse_header (written s ++ rest)) stream
            ∙ encrypted_bytes h dict rest k fp v flag empty fits small whole four ne,
      )
