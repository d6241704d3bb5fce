-- ===== src/Segment/Scan/Files.antt =====
-- Whole plain segment files under `segment_scan_impl`: closed by a footer, or torn by a crash.
use recorder.Common.{ℕ, suc, ◌+◌, ◌-◌, ◌^◌, ◌≤◌, ◌<◌, ◌≡◌, refl, sym, ap, ◌∙◌, arith}
use recorder.Common.{true, false, Option, none, ok}
use recorder.Common.{
  List, [], ◌++◌, append_assoc, length, take, drop, All, length-append, drop-append, replicate,
  append-nil, take-append,
}
use recorder.Segment.{
  SegmentHeader, SegmentFooter, has_flag, flag_encrypted, uint64_max, header_fixed_size,
}
use recorder.Segment.Crypto.{Crypto, Codec}
use recorder.Segment.Header.{
  segment_parse_header, encode_fixed, no_encryption, parse_optional_extension,
}
use recorder.Segment.Header.Fields.{IsHeader}
use recorder.Segment.Header.RoundTrip.{
  canonical, segment_parse_header-encode_fixed, length-encode_fixed,
}
use recorder.Segment.Frame.{read_frame}
use recorder.Segment.Frame.RoundTrip.{Stored, IsStored, encode_frame, stored_size, read_frame_torn}
use recorder.Segment.Footer.{footer_at, encode_footer}
use recorder.Segment.Footer.RoundTrip.{IsFooter, footer_at-encode_footer, length-encode_footer}
use recorder.Segment.Scan.{
  Callback, finished, passed, ScanState, scan_loop, no_footer, segment_scan_impl,
}
use recorder.Segment.Scan.Frames.{
  tag_size, encode_frames, frames_size, Quiet, deliver_all, scan_loop-encode_frames, scan_short,
  scan_footer, length-encode_frames-append, length-le-frames_size,
}

-- a segment without encryption: header, dictionary, frames and what comes last
unfoldable pub plain_segment : SegmentHeader → List ℕ → List Stored → List ℕ → List ℕ
plain_segment h dict fs tail =
    encode_fixed h [] (length dict) ++ (dict ++ (encode_frames fs ++ tail))

abbrev pub data_start : List ℕ → ℕ
data_start dict = header_fixed_size + length dict

module _ (h : SegmentHeader) (dict : List ℕ) (fs : List Stored) (tail : List ℕ) where
  parse_plain :
      IsHeader h
      → has_flag h.flags flag_encrypted ≡ false
      → data_start dict < 2 ^ 32
      → segment_parse_header (plain_segment h dict fs tail)
        ≡ ok (canonical h (length dict), data_start dict, no_encryption)
  unfolding plain_segment parse_optional_extension
  parse_plain v plain small =
      segment_parse_header-encode_fixed h [] (dict ++ (encode_frames fs ++ tail)) (length dict)
        no_encryption v (omega arith) (omega (arith, small))
        (omega (arith, length-append dict (encode_frames fs ++ tail))) (rw plain refl)
      ∙ ap (λ n. ok (canonical h (length dict), n, no_encryption)) (omega (arith, small))

  drop_plain : drop (data_start dict) (plain_segment h dict fs tail) ≡ encode_frames fs ++ tail
  unfolding plain_segment
  drop_plain =
      ap (drop (data_start dict))
        (sym (append_assoc (encode_fixed h [] (length dict)) dict (encode_frames fs ++ tail)))
      ∙ drop-append (data_start dict) (encode_fixed h [] (length dict) ++ dict)
          (encode_frames fs ++ tail)
          (omega (
            arith,
            length-append (encode_fixed h [] (length dict)) dict,
            length-encode_fixed h [] (length dict),
          ))

  pub length-plain_segment :
      length (plain_segment h dict fs tail) ≡ data_start dict + frames_size fs + length tail
  unfolding plain_segment
  length-plain_segment = omega (
    arith,
    length-append (encode_fixed h [] (length dict)) (dict ++ (encode_frames fs ++ tail)),
    length-encode_fixed h [] (length dict),
    length-append dict (encode_frames fs ++ tail),
    length-encode_frames-append fs tail,
  )

module _ {S : Type 0} (c : Crypto) (codec : Codec) (cb : Option (Callback S)) (min_offset : ℕ) where
  module _ (decryptor : Option c.PrivateKey) (h : SegmentHeader) (dict : List ℕ)
      (fs : List Stored) where
    -- the scan's state in a plain segment
    abbrev pub plain_state : ScanState c codec cb min_offset
    plain_state = record {
      header = canonical h (length dict);
      dict_bytes = dict;
      dek = replicate 32 0;
      nonce_prefix = replicate 4 0;
    }

    dict_found :
        (tail : List ℕ)
        → take (length dict) (drop (data_start dict - length dict) (plain_segment h dict fs tail))
          ≡ dict
    unfolding plain_segment
    dict_found tail =
        ap (λ n. take (length dict) (drop n (plain_segment h dict fs tail))) start
        ∙ ap (take (length dict)) (
            drop-append 152 (encode_fixed h [] (length dict)) _
              (length-encode_fixed h [] (length dict)))
        ∙ take-append (length dict) dict _ refl
      where
        start : data_start dict - length dict ≡ 152
        start = omega arith

    enter_plain :
        (tail : List ℕ) (s : S)
        → IsHeader h
        → has_flag h.flags flag_encrypted ≡ false
        → data_start dict < 2 ^ 32
        → segment_scan_impl c codec cb min_offset decryptor (plain_segment h dict fs tail) s
          ≡ scan_loop c codec cb min_offset plain_state
              (length (plain_segment h dict fs tail))
              (encode_frames fs ++ tail)
              (data_start dict)
              0
              s
    unfolding segment_scan_impl canonical
    enter_plain tail s v plain small =
        rw
          (
            parse_plain h dict fs tail v plain small,
            plain,
            drop_plain h dict fs tail,
            dict_found tail,
            segment_scan_impl,
          )
          refl

    no_tag :
        has_flag h.flags flag_encrypted ≡ false → tag_size c codec cb min_offset plain_state ≡ 0
    unfolding canonical
    no_tag plain = rw plain refl

    -- the frames are passed, with `extra` rounds left for the tail
    run_frames :
        (tail : List ℕ) (extra : ℕ) (s s' : S)
        → IsHeader h
        → has_flag h.flags flag_encrypted ≡ false
        → data_start dict < 2 ^ 32
        → All (IsStored 0) fs
        → Quiet fs tail
        → deliver_all c codec cb min_offset plain_state fs (data_start dict) 0 s ≡ passed s'
        → length fs ≤ uint64_max
        → length (plain_segment h dict fs tail) ≡ length fs + extra
        → segment_scan_impl c codec cb min_offset decryptor (plain_segment h dict fs tail) s
          ≡ scan_loop c codec cb min_offset plain_state extra tail
              (data_start dict + frames_size fs)
              (length fs)
              s'
    run_frames tail extra s s' v plain small stored quiet passes few size =
        enter_plain tail s v plain small
        ∙ ap
            (λ n.
              scan_loop c codec cb min_offset plain_state n (encode_frames fs ++ tail)
                (data_start dict) 0 s)
            size
        ∙ scan_loop-encode_frames c codec cb min_offset plain_state fs tail extra (data_start dict)
            0 s s' (rw (no_tag plain) stored) quiet passes (omega arith)
        ∙ ap
            (λ n.
              scan_loop c codec cb min_offset plain_state extra tail
                (data_start dict + frames_size fs) n s')
            (let e : 0 + length fs ≡ length fs = omega arith in e)

    -- A plain segment that was closed by a footer is scanned to its end: if the header,
    -- dictionary, frames and footer fit their fields, the header with the dictionary is less than
    -- 4 GiB, there are fewer than 2^64 frames, the callback, if there is one, accepts every
    -- frame, and no frame is itself taken for a footer, then the scan has delivered the frames in
    -- order, reports the footer with its numbers, and counts the whole file as committed.
    pub segment_scan_impl-closed :
        (footer : SegmentFooter) (s s' : S)
        → IsHeader h
        → has_flag h.flags flag_encrypted ≡ false
        → data_start dict < 2 ^ 32
        → All (IsStored 0) fs
        → Quiet fs (encode_footer footer)
        → IsFooter footer
        → deliver_all c codec cb min_offset plain_state fs (data_start dict) 0 s ≡ passed s'
        → length fs ≤ uint64_max
        → segment_scan_impl c codec cb min_offset decryptor
            (plain_segment h dict fs (encode_footer footer))
            s
          ≡ finished s'
              (canonical h (length dict))
              (record footer { present = true })
              (length (plain_segment h dict fs (encode_footer footer)))
    segment_scan_impl-closed footer s s' v plain small stored quiet fv passes few =
        let tail = encode_footer footer in
        let total = length (plain_segment h dict fs tail) in
        let size = length-plain_segment h dict fs tail in
        run_frames tail (suc (total - length fs - 1)) s s' v plain small stored quiet passes few
          (omega (arith, size, length-le-frames_size fs))
        ∙ scan_footer c codec cb min_offset plain_state (total - length fs - 1) tail
            (data_start dict + frames_size fs) (length fs) s' (record footer { present = true })
            (omega (arith, length-encode_footer footer))
            (ap footer_at (sym (append-nil tail)) ∙ footer_at-encode_footer footer [] fv)
        ∙ ap (finished s' (canonical h (length dict)) (record footer { present = true }))
            (omega (arith, size, length-encode_footer footer))

    -- A plain segment that a crash cut inside its last frame is recovered: if the header,
    -- dictionary and frames fit their fields, the header with the dictionary is less than 4 GiB,
    -- there are fewer than 2^64 frames, the callback, if there is one, accepts every whole frame,
    -- and no frame and no torn part is itself taken for a footer, then the scan ends without an
    -- error, has delivered exactly the whole frames in order, reports no footer, and counts as
    -- committed exactly the bytes up to the end of the last whole frame.
    pub segment_scan_impl-torn :
        (last : Stored) (k : ℕ) (s s' : S)
        → IsHeader h
        → has_flag h.flags flag_encrypted ≡ false
        → data_start dict < 2 ^ 32
        → All (IsStored 0) fs
        → IsStored 0 last
        → k < stored_size last
        → Quiet fs (take k (encode_frame last))
        → footer_at (take k (encode_frame last)) ≡ none
        → deliver_all c codec cb min_offset plain_state fs (data_start dict) 0 s ≡ passed s'
        → length fs ≤ uint64_max
        → segment_scan_impl c codec cb min_offset decryptor
            (plain_segment h dict fs (take k (encode_frame last)))
            s
          ≡ finished s' (canonical h (length dict)) no_footer (data_start dict + frames_size fs)
    segment_scan_impl-torn last k s s' v plain small stored last_stored cut quiet no_foot passes
          few =
        let tail = take k (encode_frame last) in
        let total = length (plain_segment h dict fs tail) in
        let size = length-plain_segment h dict fs tail in
        run_frames tail (suc (total - length fs - 1)) s s' v plain small stored quiet passes few
          (omega (arith, size, length-le-frames_size fs))
        ∙ scan_short c codec cb min_offset plain_state (total - length fs - 1) tail
            (data_start dict + frames_size fs) (length fs) s' no_foot
            (ap (λ n. read_frame n tail (data_start dict + frames_size fs)) (no_tag plain)
              ∙ read_frame_torn 0 last (data_start dict + frames_size fs) k last_stored cut)
