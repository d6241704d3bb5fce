-- ===== src/Config/Strip.antt =====
-- src/recorder.c: `strip_hash_comment_lines`.
use recorder.Common.{ℕ, zero, suc, ◌+◌, ◌≤◌, ◌≡◌, refl, arith, inl, inr, Bool, true, false, ◌||◌}
use recorder.Common.{
  Bool-cases, Option, none, some, List, [], ◌∷◌, ◌++◌, length, length-append, ◌==◌, if◌then◌else◌,
}

-- the bytes up to the end of the line, and what stands behind its '\n', if it has one
unfoldable pub cut_line : List ℕ → List ℕ × Option (List ℕ)
cut_line [] = ([], none)
cut_line (c ∷ input) =
    let (line, rest) = cut_line input in if c == 10 then ([], some input) else (c ∷ line, rest)

-- a '#' behind blanks and tabs only
unfoldable pub is_comment : List ℕ → Bool
is_comment [] = false
is_comment (c ∷ input) =
    let more = is_comment input in if (c == b' ') || (c == 9) then more else c == b'#'

-- the loop, for at most `fuel` lines
unfoldable pub strip_lines : ℕ → List ℕ → List ℕ
strip_lines zero input = []
strip_lines (suc fuel) [] = []
strip_lines (suc fuel) (c ∷ input) =
    let (line, rest) = cut_line (c ∷ input) in
    (if is_comment (c ∷ input) then [] else line)
    ++ elim rest [ none ↦ [] | some next ↦ 10 ∷ strip_lines fuel next ]

unfoldable pub strip_hash_comment_lines : List ℕ → List ℕ
strip_hash_comment_lines input = strip_lines (length input) input

-- the ends of lines
abbrev pub newlines : List ℕ → ℕ
newlines [] = 0
newlines (c ∷ input) = if c == 10 then suc (newlines input) else newlines input

newlines-append : (xs ys : List ℕ) → newlines (xs ++ ys) ≡ newlines xs + newlines ys
newlines-append [] ys = omega arith
newlines-append (c ∷ xs) ys = ground (arith, newlines-append xs ys)

-- A line is in front of the rest, with its '\n' between them, or it is the last one.
abbrev Cut : List ℕ → List ℕ → Option (List ℕ) → Type 0
Cut input line none = (newlines input ≡ 0) × (length line ≡ length input)
Cut input line (some next) =
    (newlines input ≡ suc (newlines next)) × (length input ≡ length line + suc (length next))

Cut-inside :
    (c : ℕ) (input line : List ℕ) (rest : Option (List ℕ))
    → (c == 10) ≡ false
    → Cut input line rest
    → Cut (c ∷ input) (c ∷ line) rest
Cut-inside c input line none e (lines, size) = (rw e lines, omega (arith, size))
Cut-inside c input line (some next) e (lines, size) = (rw e lines, omega (arith, size))

cut_line-Cut : (input : List ℕ) → Cut input (cut_line input).0 (cut_line input).1
unfolding cut_line
cut_line-Cut [] = (refl, refl)
cut_line-Cut (c ∷ input) = elim (Bool-cases (c == 10)) [
  | inl newline ↦ rw (newline, cut_line) (rw newline refl, omega arith)
  | inr inside ↦
      rw (inside, cut_line)
        (Cut-inside c input (cut_line input).0 (cut_line input).1 inside (cut_line-Cut input))
]

cut_line-newlines : (input : List ℕ) → newlines (cut_line input).0 ≡ 0
unfolding cut_line
cut_line-newlines [] = refl
cut_line-newlines (c ∷ input) = elim (Bool-cases (c == 10)) [
  | inl newline ↦ rw (newline, cut_line) refl
  | inr inside ↦ rw (inside, cut_line, inside) (cut_line-newlines input)
]

-- what a line becomes
abbrev kept : Bool → List ℕ → List ℕ
kept comment line = if comment then [] else line

kept-bounds :
    (comment : Bool) (line : List ℕ)
    → newlines line ≡ 0
    → (newlines (kept comment line) ≡ 0) × (length (kept comment line) ≤ length line)
kept-bounds true line e = (refl, omega arith)
kept-bounds false line e = (e, omega arith)

strip_lines-bounds :
    (fuel : ℕ) (input : List ℕ)
    → length input ≤ fuel
    → (newlines (strip_lines fuel input) ≡ newlines input)
      × (length (strip_lines fuel input) ≤ length input)
unfolding strip_lines
strip_lines-bounds zero [] h = (refl, omega arith)
strip_lines-bounds zero (c ∷ input) h = absurd (omega arith)
strip_lines-bounds (suc fuel) [] h = (refl, omega arith)
strip_lines-bounds (suc fuel) (c ∷ input) h =
    let all = c ∷ input in
    let (line, rest) = cut_line all in
    let (quiet, short) = kept-bounds (is_comment all) line (cut_line-newlines all) in
    go (strip_lines-bounds fuel) line rest (kept (is_comment all) line) quiet short
      (cut_line-Cut all)
  where
    go :
        ((next : List ℕ)
          → length next ≤ fuel
          → (newlines (strip_lines fuel next) ≡ newlines next)
            × (length (strip_lines fuel next) ≤ length next))
        → (line : List ℕ) (rest : Option (List ℕ)) (out : List ℕ) → newlines out ≡ 0
        → length out ≤ length line
        → Cut (c ∷ input) line rest
        → (newlines (out ++ elim rest [ none ↦ [] | some next ↦ 10 ∷ strip_lines fuel next ])
            ≡ newlines (c ∷ input))
          × (length (out ++ elim rest [ none ↦ [] | some next ↦ 10 ∷ strip_lines fuel next ])
              ≤ suc (length input))
    go more line none out quiet short (lines, size) = (
      omega (arith, newlines-append out [], quiet, lines),
      omega (arith, length-append out [], short, size),
    )
    go more line (some next) out quiet short (lines, size) =
        let later = 10 ∷ strip_lines fuel next in
        let (count, bound) = more next (omega arith) in
        (
          omega (arith, newlines-append out later, quiet, lines, count),
          omega (arith, length-append out later, short, size, bound),
        )

-- `strip_hash_comment_lines` keeps the number of ends of lines, so that a parse error names the
-- line of the file, and its output is not longer than its input, so that it fits the buffer.
pub strip_hash_comment_lines-bounds :
    (input : List ℕ)
    → (newlines (strip_hash_comment_lines input) ≡ newlines input)
      × (length (strip_hash_comment_lines input) ≤ length input)
unfolding strip_hash_comment_lines
strip_hash_comment_lines-bounds input = strip_lines-bounds (length input) input (omega arith)
