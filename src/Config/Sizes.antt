-- ===== src/Config/Sizes.antt =====
-- src/recorder.c: `parse_size_string` and the keys that are sizes.
use recorder.Common.{ℕ, ◌*◌, ◌/◌, ◌%◌, ◌^◌, ◌≤◌, ◌<◌, ◌≡◌, ◌⊎◌, inl, inr, refl, sym, arith}
use recorder.Common.{
  Bool-cases, Option, none, some, List, [], ◌∷◌, ltb, ltb→lt, ◌==◌, pos, if◌then◌else◌,
}
use mathlib.Core.Option.{some-injective}
use recorder.Config.Json.{Json, json_integer, json_string, Libc, with_default}

module _ (libc : Libc) where
  abbrev letter_scale : ℕ → Option ℕ
  letter_scale c =
      if c == b'K'
      then some 1024
      else if c == b'M'
      then some (1024 * 1024)
      else if c == b'G'
      then some (1024 * 1024 * 1024)
      else none

  -- what stands behind the number: nothing, or one letter
  unfoldable pub size_scale : List ℕ → Option ℕ
  size_scale [] = some 1
  size_scale (c ∷ []) = letter_scale (libc.toupper c)
  size_scale (c ∷ d ∷ rest) = none

  unfoldable pub scaled : ℕ → ℕ → Option ℕ
  scaled base scale =
      if ltb (0xffffffffffffffff / scale) base then none else some (base * scale % 2 ^ 64)

  unfoldable pub parse_size_string : List ℕ → Option ℕ
  parse_size_string text = elim (libc.strtoull text) [
    | none ↦ none
    | some (base, end) ↦ elim (size_scale end) [ none ↦ none | some scale ↦ scaled base scale ]
  ]

  -- a non-negative integer or a size
  unfoldable pub read_size : Json → Option ℕ
  read_size (json_integer (pos n)) = some n
  read_size (json_string text) = parse_size_string text
  read_size json = none

  unfoldable pub json_get_size_default : Json → List ℕ → ℕ → Option ℕ
  json_get_size_default root key dst = with_default root key read_size dst

  unfoldable pub json_get_group_size_default : Json → List ℕ → ℕ → Option ℕ
  json_get_group_size_default group key dst = with_default group key read_size dst

  -- the four scales
  abbrev pub IsScale : ℕ → Type 0
  IsScale scale =
      (scale ≡ 1) ⊎ ((scale ≡ 1024) ⊎ ((scale ≡ 1024 * 1024) ⊎ (scale ≡ 1024 * 1024 * 1024)))

  letter_scale-IsScale : (c scale : ℕ) → letter_scale c ≡ some scale → IsScale scale
  letter_scale-IsScale c scale e = elim (Bool-cases (c == b'K')) [
    | inl k ↦ inr (inl (sym (some-injective _ _ (rw k at e))))
    | inr nk ↦ elim (Bool-cases (c == b'M')) [
      | inl m ↦ inr (inr (inl (sym (some-injective _ _ (rw (nk, m) at e)))))
      | inr nm ↦ elim (Bool-cases (c == b'G')) [
        | inl g ↦ inr (inr (inr (sym (some-injective _ _ (rw (nk, nm, g) at e)))))
        | inr ng ↦ let wrong = rw (nk, nm, ng) at e in cc
      ]
    ]
  ]

  size_scale-IsScale : (end : List ℕ) (scale : ℕ) → size_scale end ≡ some scale → IsScale scale
  unfolding size_scale
  size_scale-IsScale [] scale e = inl (sym (some-injective _ _ e))
  size_scale-IsScale (c ∷ []) scale e = letter_scale-IsScale (libc.toupper c) scale e
  size_scale-IsScale (c ∷ d ∷ rest) scale e = cc

  -- With one of the scales, the test against the quotient is the test of the product.
  scaled-exact :
      (base scale : ℕ)
      → IsScale scale
      → ((base * scale < 2 ^ 64) × (scaled base scale ≡ some (base * scale)))
        ⊎ ((2 ^ 64 ≤ base * scale) × (scaled base scale ≡ none))
  unfolding scaled
  scaled-exact base scale s = elim s [
    | inl e ↦ rw e (by_quotient 1 (λ h. omega arith) (λ h. omega arith))
    | inr (inl e) ↦ rw e (by_quotient 1024 (λ h. omega arith) (λ h. omega arith))
    | inr (inr (inl e)) ↦ rw e (by_quotient (1024 * 1024) (λ h. omega arith) (λ h. omega arith))
    | inr (inr (inr e)) ↦
        rw e (by_quotient (1024 * 1024 * 1024) (λ h. omega arith) (λ h. omega arith))
  ]
    where
      by_quotient :
          (k : ℕ)
          → (base ≤ 0xffffffffffffffff / k → base * k < 2 ^ 64)
          → (0xffffffffffffffff / k < base → 2 ^ 64 ≤ base * k)
          → ((base * k < 2 ^ 64) × (scaled base k ≡ some (base * k)))
            ⊎ ((2 ^ 64 ≤ base * k) × (scaled base k ≡ none))
      by_quotient k fits over = elim (Bool-cases (ltb (0xffffffffffffffff / k) base)) [
        | inl large ↦ inr (over (ltb→lt _ _ large), rw (large, scaled) refl)
        | inr small ↦
            let le : base ≤ 0xffffffffffffffff / k = ground (arith, small) in
            let same : base * k % 2 ^ 64 ≡ base * k = omega (arith, fits le) in
            inl (fits le, rw (small, scaled, same) refl)
      ]

  -- For a text whose number `strtoull` reads as `base`, with nothing or one of the letters K, M
  -- and G behind it, `parse_size_string` gives exactly the product of the number and the scale 1,
  -- 2^10, 2^20 or 2^30 if this is below 2^64, and fails if it is not.
  pub parse_size_string-exact :
      (text rest : List ℕ) (base scale : ℕ)
      → libc.strtoull text ≡ some (base, rest)
      → size_scale rest ≡ some scale
      → IsScale scale
        × (((base * scale < 2 ^ 64) × (parse_size_string text ≡ some (base * scale)))
            ⊎ ((2 ^ 64 ≤ base * scale) × (parse_size_string text ≡ none)))
  unfolding parse_size_string
  parse_size_string-exact text rest base scale number unit =
      let known = size_scale-IsScale rest scale unit in
      (known, rw (number, parse_size_string, unit) (scaled-exact base scale known))
