-- ===== src/Segment/Crypto.antt =====
-- The calls that src/segment.c makes of src/recorder_crypto.c, which hands them to OpenSSL, and of
-- the zstd and flatcc libraries: parameters, with the documented behaviour that the code relies on.
use recorder.Common.{ℕ, ◌≡◌, Bool, Option, some, List, length, ◌≢◌, []}

-- `none` is a failed call. What draws random numbers also moves the generator on.
pub record Crypto : Type 1 where
  pub PublicKey : Type 0
  pub PrivateKey : Type 0
  pub Rng : Type 0
  pub random : ℕ → Rng → Option (List ℕ) × Rng
  pub wrap_dek : PublicKey → List ℕ → Rng → Option (List ℕ) × Rng
  pub unwrap_dek : PrivateKey → List ℕ → Option (List ℕ)
  -- key, nonce, associated data, text; the results are the ciphertext and the tag
  pub aes_gcm_encrypt : List ℕ → List ℕ → List ℕ → List ℕ → Option (List ℕ × List ℕ)
  -- key, nonce, associated data, ciphertext, tag
  pub aes_gcm_decrypt : List ℕ → List ℕ → List ℕ → List ℕ → List ℕ → Option (List ℕ)
  pub random_length : (n : ℕ) (g : Rng) (b : List ℕ) → (random n g).0 ≡ some b → length b ≡ n
  pub wrap_dek_nonempty :
      (k : PublicKey) (d : List ℕ) (g : Rng) (w : List ℕ) → (wrap_dek k d g).0 ≡ some w → w ≢ []
  pub encrypt_length :
      (key nonce aad text c tag : List ℕ)
      → aes_gcm_encrypt key nonce aad text ≡ some (c, tag)
      → (length c ≡ length text) × (length tag ≡ 16)
  pub decrypt-encrypt :
      (key nonce aad text c tag : List ℕ)
      → aes_gcm_encrypt key nonce aad text ≡ some (c, tag)
      → aes_gcm_decrypt key nonce aad c tag ≡ some text

-- zstd's decompression into a buffer of the given size, with a dictionary or without one, and the
-- structural verifiers that flatcc generates for the two chunk types.
pub record Codec : Type 0 where
  pub decompress : ℕ → List ℕ → Option (List ℕ)
  pub decompress_using_dict : ℕ → List ℕ → List ℕ → Option (List ℕ)
  pub verify_chunk : List ℕ → Bool
  pub verify_default_chunk : List ℕ → Bool
