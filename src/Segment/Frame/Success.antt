-- ===== src/Segment/Frame/Success.antt =====
-- src/segment.c: what a call of `segment_write_frame` that returned 0 has done.
use recorder.Common.{ℕ, ◌+◌, ◌-◌, ◌≤◌, ◌≢◌, ◌≡◌, refl, ap, arith, inl, inr}
use recorder.Common.{
  true, false, Bool-cases, Option, none, some, Option-cases, is_some, List, ◌++◌, length,
  if◌then◌else◌, ltb, ◌==◌, ok, Result,
}
use recorder.Stdio.{Stdio}
use recorder.Segment.{uint32_max, uint64_max}
use recorder.Segment.Crypto.{Crypto}
use recorder.Segment.Header.{SegmentEncryptor}
use recorder.Segment.Frame.{
  segment_write_frame, encode_frame_header, frame_nonce, write_encrypted_frame, FrameOut,
}
use recorder.Segment.Frame.RoundTrip.{Stored, encode_frame}
use recorder.Segment.Frame.Written.{
  WholeOrTorn, segment_write_frame-plain, plain_frame, length-encode_frame, passes_guards,
  sealed_run,
}

module _ (c : Crypto) (io : Stdio) where
  open io use {Stream, written}

  -- A frame holds the payload as it is, or encrypted with its tag under the next nonce, with the
  -- frame's header authenticated.
  abbrev pub Carries : Option (SegmentEncryptor c io) → List ℕ → Stored → Type 0
  Carries none payload f = (f.payload ≡ payload) × (f.tag ≡ none)
  Carries (some e) payload f =
      (tag : List ℕ) × (f.tag ≡ some tag)
      × (c.aes_gcm_encrypt e.dek (frame_nonce e.nonce_prefix e.frame_index)
            (encode_frame_header f.flags (length payload) f.uncompressed_len
              (16 + length payload + 20))
            payload
          ≡ some (f.payload, tag))

  -- A whole frame with this content was added.
  pub record Appended (e : Option (SegmentEncryptor c io)) (flags ulen : ℕ) (payload : List ℕ)
      (fp : Stream) (out : FrameOut c io) : Type 0 where
    pub frame : Stored
    pub bytes : written out.stream ≡ written fp ++ encode_frame frame
    pub flags_kept : frame.flags ≡ flags
    pub raw_size : frame.uncompressed_len ≡ ulen
    pub carries : Carries e payload frame
    pub stored_size : length frame.payload ≡ length payload
    pub kept : is_some out.encryptor ≡ is_some e
    pub size : length (encode_frame frame) ≡ 16 + length payload + 4 + (if is_some e then 16 else 0)
    pub small : length (encode_frame frame) ≤ uint32_max

  whole :
      (f : Stored) (fp fp' : Stream) (r : Result (Unit {0}))
      → r ≡ ok tt
      → WholeOrTorn c io f fp r fp'
      → written fp' ≡ written fp ++ encode_frame f
  whole f fp fp' r done (inl (ran, bytes)) = bytes
  whole f fp fp' r done (inr (k, failed, below, rest)) = cc

  plain-ok :
      (flags ulen : ℕ) (payload : List ℕ) (fp : Stream)
      → (segment_write_frame c io none flags payload ulen fp).result ≡ ok tt
      → Appended none flags ulen payload fp (segment_write_frame c io none flags payload ulen fp)
  unfolding segment_write_frame
  plain-ok flags ulen payload fp done = elim (Bool-cases (ltb (uint32_max - 20) (length payload))) [
    | inl large ↦ let wrong = rw (large, segment_write_frame) at done in cc
    | inr fits ↦
        let f = plain_frame c io flags payload ulen in
        let le : length payload ≤ uint32_max - 16 - 4 = ground (arith, fits) in
        record {
          frame = f;
          bytes = whole f fp _ _ done (segment_write_frame-plain c io flags ulen payload fp le);
          flags_kept = refl;
          raw_size = refl;
          carries = (refl, refl);
          stored_size = refl;
          kept = unfold segment_write_frame in rw (fits, segment_write_frame) refl;
          size = omega (arith, length-encode_frame c io f);
          small = omega (arith, length-encode_frame c io f);
        }
  ]

  -- the guards that a successful call passed, and its encryption
  record Sealed (e : SegmentEncryptor c io) (flags ulen : ℕ) (payload : List ℕ) : Type 0 where
    ready : e.initialized ≡ true
    fits : ltb (uint32_max - 36) (length payload) ≡ false
    fresh : (e.frame_index == uint64_max) ≡ false

  passed_guards :
      (e : SegmentEncryptor c io) (flags ulen : ℕ) (payload : List ℕ) (fp : Stream)
      → (segment_write_frame c io (some e) flags payload ulen fp).result ≡ ok tt
      → Sealed e flags ulen payload
        × ((write_encrypted_frame c io e flags payload ulen fp).result ≡ ok tt)
  unfolding segment_write_frame
  passed_guards e flags ulen payload fp done = elim (Bool-cases e.initialized) [
    | inr unready ↦ let wrong = rw (unready, segment_write_frame) at done in cc
    | inl ready ↦ elim (Bool-cases (ltb (uint32_max - 36) (length payload))) [
      | inl large ↦ let wrong = rw (ready, large, segment_write_frame) at done in cc
      | inr fits ↦ elim (Bool-cases (e.frame_index == uint64_max)) [
        | inl used ↦ let wrong = rw (ready, fits, used, segment_write_frame) at done in cc
        | inr fresh ↦ (
          record { ready = ready; fits = fits; fresh = fresh },
          rw
              (passes_guards c io e flags ulen payload fp ready (λ x. absurd (ground arith))
                (ground (arith, fits)))
              at done,
        )
      ]
    ]
  ]

  sealed-ok :
      (e : SegmentEncryptor c io) (flags ulen : ℕ) (payload : List ℕ) (fp : Stream)
      → (segment_write_frame c io (some e) flags payload ulen fp).result ≡ ok tt
      → Appended
          (some e)
          flags
          ulen
          payload
          fp
          (segment_write_frame c io (some e) flags payload ulen fp)
  unfolding write_encrypted_frame
  sealed-ok e flags ulen payload fp done =
      let (passed, ran) = passed_guards e flags ulen payload fp done in
      let le : length payload ≤ uint32_max - 36 = ground (arith, passed.fits) in
      let fresh : e.frame_index ≢ uint64_max = λ x. absurd (ground (arith, passed.fresh)) in
      let header = encode_frame_header flags (length payload) ulen (16 + length payload + 20) in
      let nonce = frame_nonce e.nonce_prefix e.frame_index in
      elim (Option-cases (c.aes_gcm_encrypt e.dek nonce header payload)) [
        | inl failed ↦ let wrong = rw (failed, write_encrypted_frame) at ran in cc
        | inr ((text, tag), enc) ↦
            let f : Stored = record {
              flags = flags;
              uncompressed_len = ulen;
              payload = text;
              tag = some tag;
            } in
            let (same, sixteen) = c.encrypt_length _ _ _ payload text tag enc in
            let (run, counted) =
              sealed_run c io e flags ulen payload text tag fp passed.ready fresh le enc in
            record {
              frame = f;
              bytes = whole f fp _ _ done run;
              flags_kept = refl;
              raw_size = refl;
              carries = (tag, refl, enc);
              stored_size = same;
              kept = ap is_some counted;
              size = omega (arith, length-encode_frame c io f, same, sixteen);
              small = omega (arith, length-encode_frame c io f, same, sixteen);
            }
      ]

  -- a call that returned 0
  pub segment_write_frame-ok :
      (e : Option (SegmentEncryptor c io)) (flags ulen : ℕ) (payload : List ℕ) (fp : Stream)
      → (segment_write_frame c io e flags payload ulen fp).result ≡ ok tt
      → Appended e flags ulen payload fp (segment_write_frame c io e flags payload ulen fp)
  segment_write_frame-ok none = plain-ok
  segment_write_frame-ok (some e) = sealed-ok e
