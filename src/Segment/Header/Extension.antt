-- ===== src/Segment/Header/Extension.antt =====
-- The encryption extension of a segment header, read back from what is written.
use recorder.Common.{ℕ, ◌+◌, ◌-◌, ◌<◌, ◌^◌, ◌≡◌, ◌≢◌, refl, ap, ◌∙◌, arith}
use recorder.Common.{List, [], ◌∷◌, ◌++◌, length, take, drop, le→leb, ==_refl, eq→==, ne→==_false}
use recorder.Common.{length-append, drop-append, take-append, take_all, ok}
use recorder.Bytes.{read_u32_le, write_u32_le}
use recorder.Bytes.Words.{read_u32_le-write_u32_le}
use recorder.Segment.{extension_magic, nonce_prefix_size}
use recorder.Segment.Header.{encode_extension, parse_extension}

length-zero : (xs : List ℕ) → length xs ≡ 0 → xs ≡ []
length-zero [] e = refl
length-zero (x ∷ xs) e = absurd (omega arith)

module _ (prefix wrapped : List ℕ) (four : length prefix ≡ nonce_prefix_size) where
  abbrev pub extension : List ℕ
  extension = encode_extension prefix wrapped

  pub length-encode_extension : length extension ≡ 36 + length wrapped
  unfolding encode_extension
  length-encode_extension = omega (arith, length-append prefix wrapped, four)

  read_length : 36 + length wrapped < 2 ^ 32 → read_u32_le (drop 12 extension) ≡ 36 + length wrapped
  unfolding encode_extension
  read_length h =
      read_u32_le-write_u32_le (36 + length wrapped)
        (write_u32_le 1
          ++ (write_u32_le 1
              ++ (write_u32_le (length wrapped) ++ (write_u32_le 4 ++ (prefix ++ wrapped)))))
        h

  read_wrapped_len : 36 + length wrapped < 2 ^ 32 → read_u32_le (drop 24 extension) ≡ length wrapped
  unfolding encode_extension
  read_wrapped_len h =
      read_u32_le-write_u32_le (length wrapped) (write_u32_le 4 ++ (prefix ++ wrapped))
        (omega arith)

  read_prefix_len : read_u32_le (drop 28 extension) ≡ 4
  unfolding encode_extension
  read_prefix_len = read_u32_le-write_u32_le 4 (prefix ++ wrapped) (omega arith)

  read_wrapped : take (length wrapped) (drop 36 extension) ≡ wrapped
  unfolding encode_extension
  read_wrapped =
      ap (take (length wrapped)) (drop-append 4 prefix wrapped four) ∙ take_all _ wrapped refl

  read_prefix : take 4 (drop 32 extension) ≡ prefix
  unfolding encode_extension
  read_prefix = take-append 4 prefix wrapped four

  read_magic : take 8 extension ≡ extension_magic
  unfolding encode_extension
  read_magic = refl

  read_version : read_u32_le (drop 8 extension) ≡ 1
  unfolding encode_extension
  read_version = read_u32_le-write_u32_le 1 (drop 12 extension) (omega arith)

  read_key_wrap : read_u32_le (drop 16 extension) ≡ 1
  unfolding encode_extension
  read_key_wrap = read_u32_le-write_u32_le 1 (drop 20 extension) (omega arith)

  read_cipher : read_u32_le (drop 20 extension) ≡ 1
  unfolding encode_extension
  read_cipher = read_u32_le-write_u32_le 1 (drop 24 extension) (omega arith)

  -- The reader finds the wrapped key and the nonce prefix that were written.
  pub parse_extension-encode_extension :
      wrapped ≢ []
      → 36 + length wrapped < 2 ^ 32
      → parse_extension extension (36 + length wrapped)
        ≡ ok (record {
          wrapped_dek = wrapped;
          wrapped_dek_len = length wrapped;
          nonce_prefix = prefix;
        })
  unfolding parse_extension
  parse_extension-encode_extension ne small =
      rw
        (
          le→leb 36 (36 + length wrapped) (omega arith),
          read_magic,
          read_version,
          read_length small,
          ==_refl (36 + length wrapped),
          read_key_wrap,
          read_cipher,
          read_prefix_len,
          read_wrapped_len small,
          ne→==_false (length wrapped) 0 (λ e. ne (length-zero wrapped e)),
          eq→== (length wrapped) (36 + length wrapped - 32 - 4) (omega arith),
          read_wrapped,
          read_prefix,
        )
        refl
