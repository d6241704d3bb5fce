-- ===== src/Modifiers/Escaped.antt =====
-- src/recorder.c: texts that `build_regex_replacement` gives back.
use recorder.Common.{ℕ, ◌≡◌, refl, sym, ap, ◌∙◌, inl, inr, Bool-cases, false}
use recorder.Common.{Option, List, [], ◌∷◌, ◌==◌, ==→eq, if◌then◌else◌}
use recorder.Modifiers.{build_regex_replacement, token, plain}

-- every '$' written twice
abbrev pub escape : List ℕ → List ℕ
escape [] = []
escape (c ∷ text) = if c == b'$' then b'$' ∷ b'$' ∷ escape text else c ∷ escape text

module _ (ovector : List (Option (ℕ × ℕ))) (subject : List ℕ) where
  token-plain : (c d : ℕ) → (c == b'$') ≡ false → token c d ≡ plain
  unfolding token
  token-plain c d e = rw e refl

  -- A character that is no '$' stays as it is, whatever follows.
  build-plain :
      (c : ℕ) (rest : List ℕ)
      → (c == b'$') ≡ false
      → build_regex_replacement ovector subject (c ∷ rest)
        ≡ c ∷ build_regex_replacement ovector subject rest
  unfolding build_regex_replacement
  build-plain c [] e = refl
  build-plain c (d ∷ rest) e = rw (token-plain c d e, build_regex_replacement) refl

  -- A text in which every dollar sign is doubled comes out of `build_regex_replacement` as it
  -- was, whatever matched.
  pub build_regex_replacement-escape :
      (text : List ℕ) → build_regex_replacement ovector subject (escape text) ≡ text
  unfolding build_regex_replacement token
  build_regex_replacement-escape [] = refl
  build_regex_replacement-escape (c ∷ text) =
      let later = build_regex_replacement-escape text in
      elim (Bool-cases (c == b'$')) [
        | inl special ↦
            rw special
              (ap (λ t. b'$' ∷ t) later ∙ ap (λ (k : ℕ). k ∷ text) (sym (==→eq c b'$' special)))
        | inr other ↦ rw other (build-plain c (escape text) other ∙ ap (λ t. c ∷ t) later)
      ]
