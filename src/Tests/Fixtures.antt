-- ===== src/Tests/Fixtures.antt =====
-- Instances of the parameters: a stream that takes everything, a toy cipher and a toy codec.
use recorder.Common.{
  ℕ, ◌+◌, ◌≡◌, ◌≢◌, refl, sym, ap, ◌∙◌, arith, Option, some, none, true, List, [], ◌∷◌, ◌++◌,
}
use recorder.Common.{length, replicate, take_all, length-replicate}
use recorder.Stdio.{Stdio}
use recorder.Segment.{SegmentHeader, SegmentFooter}
use recorder.Segment.Crypto.{Crypto, Codec}
use recorder.Segment.Frame.RoundTrip.{Stored, IsStored}
use recorder.Segment.Header.Fields.{IsHeader}
use recorder.Segment.Footer.RoundTrip.{IsFooter}

abbrev pub list_io : Stdio
list_io = record {
  Stream = List ℕ;
  written = λ s. s;
  fwrite = λ buf s. (length buf, s ++ buf);
  fwrite_count = λ buf s. omega arith;
  fwrite_bytes = λ buf s. ap (λ t. s ++ t) (sym (take_all (length buf) buf refl));
}

pub random_toy : (n g : ℕ) (b : List ℕ) → some (replicate n 7) ≡ some b → length b ≡ n
random_toy n g b e = ap length (sym e') ∙ length-replicate n 7
  where
    e' : replicate n 7 ≡ b
    e' = cc

abbrev pub unwrap_toy : List ℕ → Option (List ℕ)
unwrap_toy [] = none
unwrap_toy (x ∷ xs) = some xs

pub wrap_toy : (d w : List ℕ) → some (1 ∷ d) ≡ some w → w ≢ []
wrap_toy d w e = λ z. cc

pub encrypt_toy :
    (text c tag : List ℕ)
    → ◌≡◌ {A = Option (List ℕ × List ℕ)} (some (text, replicate 16 5)) (some (c, tag))
    → (length c ≡ length text) × (length tag ≡ 16)
encrypt_toy text c tag e =
    let p : text ≡ c = cc in
    let q : replicate 16 5 ≡ tag = cc in (ap length (sym p), ap length (sym q))

pub decrypt_toy :
    (text c tag : List ℕ)
    → ◌≡◌ {A = Option (List ℕ × List ℕ)} (some (text, replicate 16 5)) (some (c, tag))
    → some c ≡ some text
decrypt_toy text c tag e = let p : text ≡ c = cc in ap some (sym p)

abbrev pub toy_crypto : Crypto
toy_crypto = record {
  PublicKey = ℕ;
  PrivateKey = ℕ;
  Rng = ℕ;
  random = λ n g. (some (replicate n 7), g + 1);
  wrap_dek = λ key dek g. (some (1 ∷ dek), g + 1);
  unwrap_dek = λ key w. unwrap_toy w;
  aes_gcm_encrypt = λ key nonce aad text. some (text, replicate 16 5);
  aes_gcm_decrypt = λ key nonce aad text tag. some text;
  random_length = random_toy;
  wrap_dek_nonempty = λ key d g w e. wrap_toy d w e;
  encrypt_length = λ key nonce aad text c tag e. encrypt_toy text c tag e;
  decrypt-encrypt = λ key nonce aad text c tag e. decrypt_toy text c tag e;
}

abbrev pub toy_codec : Codec
toy_codec = record {
  decompress = λ n payload. some payload;
  decompress_using_dict = λ n payload dict. some payload;
  verify_chunk = λ chunk. true;
  verify_default_chunk = λ chunk. true;
}

-- A plain segment header and an encrypted one; the texts end at their first NUL.
abbrev pub plain_header : SegmentHeader
plain_header = record {
  flags = 4;
  segment_seq = 100;
  boot_seq = 2;
  boot_id = b'a' ∷ b'b' ∷ 0 ∷ [];
  timezone = b'U' ∷ b'T' ∷ b'C' ∷ 0 ∷ [];
  first_realtime_ts = 1000;
  first_monotonic_ts = 5;
  dict_len = 0;
}

abbrev pub secret_header : SegmentHeader
secret_header = record plain_header { flags = 12 }

abbrev pub first_frame : Stored
first_frame = record { flags = 0; uncompressed_len = 3; payload = 1 ∷ 2 ∷ 3 ∷ []; tag = none }

abbrev pub second_frame : Stored
second_frame = record { flags = 0; uncompressed_len = 2; payload = 8 ∷ 9 ∷ []; tag = none }

abbrev pub closing_footer : SegmentFooter
closing_footer = record {
  footer_flags = 0;
  rotation_reason = 7;
  entry_count = 2;
  last_realtime_ts = 1003;
  last_monotonic_ts = 8;
  present = true;
}

pub plain_header-IsHeader : IsHeader plain_header
plain_header-IsHeader = omega arith

pub secret_header-IsHeader : IsHeader secret_header
secret_header-IsHeader = omega arith

pub first_frame-IsStored : IsStored 0 first_frame
first_frame-IsStored = record {
  flags = omega arith;
  uncompressed_len = omega arith;
  small = omega arith;
  tag_fits = refl;
  tag_kind = refl;
}

pub second_frame-IsStored : IsStored 0 second_frame
second_frame-IsStored = record {
  flags = omega arith;
  uncompressed_len = omega arith;
  small = omega arith;
  tag_fits = refl;
  tag_kind = refl;
}

pub closing_footer-IsFooter : IsFooter closing_footer
closing_footer-IsFooter = omega arith
