-- ===== src/Segment/Frame/Written.antt =====
-- src/segment.c: what `segment_write_frame` adds to the file.
use recorder.Common.{ℕ, ◌+◌, ◌-◌, ◌≤◌, ◌<◌, ◌≡◌, refl, sym, ap, ap₂, ◌∙◌, arith, ◌⊎◌, ◌≢◌, inl, inr}
use recorder.Common.{
  Bool, true, false, Option, none, some, List, [], ◌++◌, append-nil, length, take, take_all,
}
use recorder.Common.{le→ltb_false, ne→==_false, Result, ok, err, unset}
use recorder.Bytes.{write_u32_le}
use recorder.Stdio.{Stdio, Wrote, write_all, write_all-Wrote, and_then, and_then-Wrote}
use recorder.Segment.{uint32_max, uint64_max}
use recorder.Segment.Crypto.{Crypto}
use recorder.Segment.Header.{SegmentEncryptor, written_result}
use recorder.Segment.Frame.{
  encode_frame_header, write_tag, write_frame_parts, write_encrypted_frame, segment_write_frame,
  tag_bytes, frame_crc, frame_nonce,
}
use recorder.Segment.Frame.RoundTrip.{
  Stored, stored_header, stored_size, encode_frame, length-encode_frame-append,
}

module _ (c : Crypto) (io : Stdio) where
  open io use {Stream, written}

  write_tag-Wrote :
      (tag : Option (List ℕ)) (fp : Stream) → Wrote io (tag_bytes tag) fp (write_tag c io tag fp)
  unfolding write_tag
  write_tag-Wrote none fp = record {
    count = 0;
    stored = sym (append-nil _);
    whole = λ e. refl;
    torn = λ e. cc;
  }
  write_tag-Wrote (some tag) fp = write_all-Wrote io tag fp

  parts-Wrote :
      (f : Stored) (fp : Stream)
      → Wrote io (encode_frame f) fp (write_frame_parts c io (stored_header f) f.payload f.tag fp)
  unfolding write_frame_parts encode_frame
  parts-Wrote f fp =
      let crc = write_u32_le (frame_crc (stored_header f) f.payload f.tag) in
      let tail = and_then io (write_tag c io f.tag) (write_all io crc) in
      and_then-Wrote io (stored_header f) (f.payload ++ (tag_bytes f.tag ++ crc)) fp
        (write_all io (stored_header f)) (and_then io (write_all io f.payload) tail)
        (write_all-Wrote io (stored_header f) fp)
        (λ s.
          and_then-Wrote io f.payload (tag_bytes f.tag ++ crc) s (write_all io f.payload) tail
            (write_all-Wrote io f.payload s)
            (λ t.
              and_then-Wrote io (tag_bytes f.tag) crc t (write_tag c io f.tag) (write_all io crc)
                (write_tag-Wrote f.tag t) (write_all-Wrote io crc)))

  -- the frame was added whole, or the call failed and left a proper front part of it
  abbrev pub WholeOrTorn : Stored → Stream → Result (Unit {0}) → Stream → Type 0
  WholeOrTorn f fp result fp' =
      ((result ≡ ok tt) × (written fp' ≡ written fp ++ encode_frame f))
      ⊎ ((k : ℕ) × (result ≡ err unset)
          × (k < stored_size f)
          × (written fp' ≡ written fp ++ take k (encode_frame f)))

  pub length-encode_frame : (f : Stored) → length (encode_frame f) ≡ stored_size f
  length-encode_frame f =
      ap length (sym (append-nil (encode_frame f))) ∙ omega (arith, length-encode_frame-append f [])

  settle :
      (f : Stored) (fp : Stream) (r : Bool × Stream)
      → Wrote io (encode_frame f) fp r
      → WholeOrTorn f fp (written_result c io r.0) r.1
  settle f fp (true, s) w = inl (
    refl,
    w.stored ∙ ap (λ t. written fp ++ t) (take_all w.count (encode_frame f) (w.whole refl)),
  )
  settle f fp (false, s) w =
      inr (w.count, refl, omega (arith, w.torn refl, length-encode_frame f), w.stored)

  abbrev pub plain_frame : ℕ → List ℕ → ℕ → Stored
  plain_frame flags payload uncompressed_len = record {
    flags = flags;
    uncompressed_len = uncompressed_len;
    payload = payload;
    tag = none;
  }

  plain_run :
      (flags uncompressed_len : ℕ) (payload : List ℕ) (fp : Stream)
      → length payload ≤ uint32_max - 16 - 4
      → let r =
          write_frame_parts c io
            (stored_header (plain_frame flags payload uncompressed_len))
            payload
            none
            fp in
        segment_write_frame c io none flags payload uncompressed_len fp
        ≡ record { result = written_result c io r.0; encryptor = none; stream = r.1 }
  unfolding segment_write_frame
  plain_run flags ulen payload fp fits =
      rw (le→ltb_false (uint32_max - 16 - 4) (length payload) fits, size, segment_write_frame) refl
    where
      size : 16 + length payload + 4 ≡ 20 + length payload + 0
      size = omega arith

  -- For a payload that fits a frame, `segment_write_frame` without an encryptor either returns 0
  -- and has appended the whole frame, or fails and has appended a proper front part of it.
  pub segment_write_frame-plain :
      (flags uncompressed_len : ℕ) (payload : List ℕ) (fp : Stream)
      → length payload ≤ uint32_max - 16 - 4
      → WholeOrTorn
          (plain_frame flags payload uncompressed_len)
          fp
          (segment_write_frame c io none flags payload uncompressed_len fp).result
          (segment_write_frame c io none flags payload uncompressed_len fp).stream
  segment_write_frame-plain flags ulen payload fp fits =
      let f = plain_frame flags payload ulen in
      rw (plain_run flags ulen payload fp fits) (settle f fp _ (parts-Wrote f fp))

  pub passes_guards :
      (e : SegmentEncryptor c io) (flags ulen : ℕ) (payload : List ℕ) (fp : Stream)
      → e.initialized ≡ true
      → e.frame_index ≢ uint64_max
      → length payload ≤ uint32_max - 16 - 20
      → segment_write_frame c io (some e) flags payload ulen fp
        ≡ write_encrypted_frame c io e flags payload ulen fp
  unfolding segment_write_frame
  passes_guards e flags ulen payload fp ready fresh fits =
      simp
        (
          ready,
          le→ltb_false (uint32_max - 16 - 20) (length payload) fits,
          ne→==_false e.frame_index uint64_max fresh,
        )
        refl

  encrypted_run :
      (e : SegmentEncryptor c io) (flags ulen : ℕ) (payload text tag : List ℕ) (fp : Stream)
      → e.initialized ≡ true
      → e.frame_index ≢ uint64_max
      → length payload ≤ uint32_max - 16 - 20
      → let header = encode_frame_header flags (length payload) ulen (16 + length payload + 20) in
        c.aes_gcm_encrypt e.dek (frame_nonce e.nonce_prefix e.frame_index) header payload
          ≡ some (text, tag)
        → let r = write_frame_parts c io header text (some tag) fp in
          segment_write_frame c io (some e) flags payload ulen fp ≡ record {
            result = written_result c io r.0;
            encryptor = some (record e { frame_index = e.frame_index + 1 });
            stream = r.1;
          }
  encrypted_run e flags ulen payload text tag fp ready fresh fits sealed =
      passes_guards e flags ulen payload fp ready fresh fits
      ∙ (unfold write_encrypted_frame in rw (sealed, write_encrypted_frame) refl)

  pub sealed_run :
      (e : SegmentEncryptor c io) (flags ulen : ℕ) (payload text tag : List ℕ) (fp : Stream)
      → e.initialized ≡ true
      → e.frame_index ≢ uint64_max
      → length payload ≤ uint32_max - 16 - 20
      → c.aes_gcm_encrypt e.dek
          (frame_nonce e.nonce_prefix e.frame_index)
          (encode_frame_header flags (length payload) ulen (16 + length payload + 20))
          payload
        ≡ some (text, tag)
      → WholeOrTorn
          (record { flags = flags; uncompressed_len = ulen; payload = text; tag = some tag })
          fp
          (segment_write_frame c io (some e) flags payload ulen fp).result
          (segment_write_frame c io (some e) flags payload ulen fp).stream
        × ((segment_write_frame c io (some e) flags payload ulen fp).encryptor
            ≡ some (record e { frame_index = e.frame_index + 1 }))
  sealed_run e flags ulen payload text tag fp ready fresh fits sealed =
      let f : Stored = record {
        flags = flags;
        uncompressed_len = ulen;
        payload = text;
        tag = some tag;
      } in
      let run = encrypted_run e flags ulen payload text tag fp ready fresh fits sealed in
      let (same, sixteen) = c.encrypt_length _ _ _ payload text tag sealed in
      let header : encode_frame_header flags (length payload) ulen (16 + length payload + 20)
          ≡ stored_header f =
        ap₂ (λ n k. encode_frame_header flags n ulen k) (sym same) (omega (arith, same, sixteen)) in
      rw (run, header) (settle f fp _ (parts-Wrote f fp), refl)

  -- With a ready encryptor whose frame counter is not used up, a payload that fits a frame, and
  -- an encryption that succeeds, `segment_write_frame` either returns 0 and has appended the
  -- whole encrypted frame with its tag, or fails and has appended a proper front part of it; the
  -- frame counter has moved on by one in both cases.
  pub segment_write_frame-encrypted :
      (e : SegmentEncryptor c io) (flags ulen : ℕ) (payload text tag : List ℕ) (fp : Stream)
      → e.initialized ≡ true
      → e.frame_index < uint64_max
      → length payload ≤ uint32_max - 16 - 20
      → c.aes_gcm_encrypt e.dek
          (frame_nonce e.nonce_prefix e.frame_index)
          (encode_frame_header flags (length payload) ulen (16 + length payload + 20))
          payload
        ≡ some (text, tag)
      → WholeOrTorn
          (record { flags = flags; uncompressed_len = ulen; payload = text; tag = some tag })
          fp
          (segment_write_frame c io (some e) flags payload ulen fp).result
          (segment_write_frame c io (some e) flags payload ulen fp).stream
        × ((segment_write_frame c io (some e) flags payload ulen fp).encryptor
            ≡ some (record e { frame_index = e.frame_index + 1 }))
  segment_write_frame-encrypted e flags ulen payload text tag fp ready fresh =
      sealed_run e flags ulen payload text tag fp ready (λ used. omega arith)
