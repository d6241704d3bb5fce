-- ===== src/Segment/Header/Fields.antt =====
-- The fields of a written segment header, each read back at its offset.
use recorder.Common.{ℕ, zero, suc, ◌+◌, ◌-◌, ◌≤◌, ◌<◌, ◌^◌, ◌≡◌, refl, sym, ap, ◌∙◌, arith}
use recorder.Common.{List, [], ◌∷◌, ◌++◌, append_assoc, length, take, drop, replicate}
use recorder.Common.{
  length-append, length-replicate, length-take, drop-append, drop-drop, take-append,
  take-append_within,
}
use recorder.Bytes.{IsU32, IsU64, read_u32_le, read_u64_le, write_u32_le, write_u64_le}
use recorder.Bytes.Words.{read_u32_le-write_u32_le, read_u64_le-write_u64_le}
use recorder.Segment.{SegmentHeader, segment_magic, boot_id_size, tz_size, header_fixed_size}
use recorder.Segment.Header.{strnlen, c_field, encode_numbers, encode_times, encode_body}

-- The numbers of a header fit their C types.
pub record IsHeader (h : SegmentHeader) : Type 0 where
  pub flags : IsU32 h.flags
  pub segment_seq : IsU64 h.segment_seq
  pub boot_seq : IsU32 h.boot_seq
  pub first_realtime_ts : IsU64 h.first_realtime_ts
  pub first_monotonic_ts : IsU64 h.first_monotonic_ts

strnlen-le : (s : List ℕ) (n : ℕ) → (strnlen s n ≤ n) × (strnlen s n ≤ length s)
unfolding strnlen
strnlen-le s zero = omega arith
strnlen-le [] (suc n) = omega arith
strnlen-le (c ∷ s) (suc n) = ground (arith, strnlen-le s n)

pub length-c_field : (n size : ℕ) (s : List ℕ) → n ≤ size → length (c_field n size s) ≡ size
unfolding c_field
length-c_field n size s h =
    length-append (take (strnlen s n) s) _
    ∙ omega (
      arith,
      length-take (strnlen s n) s,
      length-replicate {A = ℕ} (size - strnlen s n) 0,
      strnlen-le s n,
    )

replicate-append_zero : (n : ℕ) → replicate {A = ℕ} n 0 ++ (0 ∷ []) ≡ replicate (suc n) 0
replicate-append_zero zero = refl
replicate-append_zero (suc n) = ap (λ t. 0 ∷ t) (replicate-append_zero n)

-- The NUL that the reader adds behind the field is the NUL of a longer field.
pub c_field-append_zero :
    (n size : ℕ) (s : List ℕ) → n ≤ size → c_field n size s ++ (0 ∷ []) ≡ c_field n (suc size) s
unfolding c_field
c_field-append_zero n size s h =
    append_assoc (take (strnlen s n) s) _ _
    ∙ ap (λ t. take (strnlen s n) s ++ t)
        (replicate-append_zero (size - strnlen s n)
          ∙ ap (λ k. replicate k 0)
              (let e : suc (size - strnlen s n) ≡ suc size - strnlen s n =
                  omega (arith, strnlen-le s n) in
                e))

module _ (h : SegmentHeader) (extension_len dict_len : ℕ) where
  abbrev pub boot : List ℕ
  boot = c_field boot_id_size boot_id_size h.boot_id

  abbrev pub zone : List ℕ
  zone = c_field (tz_size - 1) tz_size h.timezone

  -- the whole buffer, split at the bytes 32, 64, 128 and 148
  abbrev pub flat : List ℕ → List ℕ
  flat rest =
      encode_numbers h extension_len ++ (boot ++ (zone ++ (encode_times h dict_len ++ rest)))

  pub encode_body-append :
      (rest : List ℕ) → encode_body h extension_len dict_len ++ rest ≡ flat rest
  unfolding encode_body
  encode_body-append rest = simp append_assoc

  length-boot : length boot ≡ 32
  length-boot = length-c_field 32 32 h.boot_id (omega arith)

  length-zone : length zone ≡ 64
  length-zone = length-c_field 63 64 h.timezone (omega arith)

  pub length-encode_body : length (encode_body h extension_len dict_len) ≡ 148
  unfolding encode_body encode_numbers encode_times
  length-encode_body = omega (
    arith,
    length-append boot (zone ++ encode_times h dict_len),
    length-append zone (encode_times h dict_len),
    length-boot,
    length-zone,
  )

  module _ (rest : List ℕ) where
    abbrev pub tail_part : List ℕ
    tail_part = boot ++ (zone ++ (encode_times h dict_len ++ rest))

    pub read_version : read_u32_le (drop 8 (flat rest)) ≡ 1
    unfolding encode_numbers
    read_version =
        read_u32_le-write_u32_le 1
          (write_u32_le (header_fixed_size + extension_len)
            ++ (write_u32_le h.flags
                ++ (write_u64_le h.segment_seq ++ (write_u32_le h.boot_seq ++ tail_part))))
          (omega arith)

    pub read_header_size :
        header_fixed_size + extension_len < 2 ^ 32
        → read_u32_le (drop 12 (flat rest)) ≡ header_fixed_size + extension_len
    unfolding encode_numbers
    read_header_size fits =
        read_u32_le-write_u32_le (header_fixed_size + extension_len)
          (write_u32_le h.flags
            ++ (write_u64_le h.segment_seq ++ (write_u32_le h.boot_seq ++ tail_part)))
          fits

    pub read_flags : IsU32 h.flags → read_u32_le (drop 16 (flat rest)) ≡ h.flags
    unfolding encode_numbers
    read_flags fits =
        read_u32_le-write_u32_le h.flags
          (write_u64_le h.segment_seq ++ (write_u32_le h.boot_seq ++ tail_part)) fits

    pub read_segment_seq : IsU64 h.segment_seq → read_u64_le (drop 20 (flat rest)) ≡ h.segment_seq
    unfolding encode_numbers
    read_segment_seq fits =
        read_u64_le-write_u64_le h.segment_seq (write_u32_le h.boot_seq ++ tail_part) fits

    pub read_boot_seq : IsU32 h.boot_seq → read_u32_le (drop 28 (flat rest)) ≡ h.boot_seq
    unfolding encode_numbers
    read_boot_seq fits = read_u32_le-write_u32_le h.boot_seq tail_part fits

    pub read_boot_id : take boot_id_size (drop 32 (flat rest)) ≡ boot
    unfolding encode_numbers
    read_boot_id = take-append 32 boot _ length-boot

    drop_64 : drop 64 (flat rest) ≡ zone ++ (encode_times h dict_len ++ rest)
    unfolding encode_numbers
    drop_64 = drop-append 32 boot _ length-boot

    pub read_timezone : take 63 (drop 64 (flat rest)) ≡ take 63 zone
    read_timezone = rw drop_64 (take-append_within 63 zone _ (omega (arith, length-zone)))

    drop_128 : (n : ℕ) → drop (128 + n) (flat rest) ≡ drop n (encode_times h dict_len ++ rest)
    drop_128 n =
        sym (drop-drop n 128 (flat rest))
        ∙ ap (λ t. drop n t)
            (sym (drop-drop 64 64 (flat rest))
              ∙ ap (λ t. drop 64 t) drop_64
              ∙ drop-append 64 zone (encode_times h dict_len ++ rest) length-zone)

    pub read_realtime :
        IsU64 h.first_realtime_ts → read_u64_le (drop 128 (flat rest)) ≡ h.first_realtime_ts
    unfolding encode_times
    read_realtime fits =
        ap read_u64_le (drop_128 0)
        ∙ read_u64_le-write_u64_le h.first_realtime_ts
            (write_u64_le h.first_monotonic_ts ++ (write_u32_le dict_len ++ rest)) fits

    pub read_monotonic :
        IsU64 h.first_monotonic_ts → read_u64_le (drop 136 (flat rest)) ≡ h.first_monotonic_ts
    unfolding encode_times
    read_monotonic fits =
        ap read_u64_le (drop_128 8)
        ∙ read_u64_le-write_u64_le h.first_monotonic_ts (write_u32_le dict_len ++ rest) fits

    pub read_dict_len : IsU32 dict_len → read_u32_le (drop 144 (flat rest)) ≡ dict_len
    unfolding encode_times
    read_dict_len fits = ap read_u32_le (drop_128 16) ∙ read_u32_le-write_u32_le dict_len rest fits

    pub read_magic : take 8 (flat rest) ≡ segment_magic
    unfolding encode_numbers
    read_magic = refl

    pub read_rest : drop 148 (flat rest) ≡ rest
    unfolding encode_times
    read_rest = drop_128 20
