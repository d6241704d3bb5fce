-- ===== src/Player/BootList.antt =====
-- src/player.c: `find_boot` and `add_boot`.
use recorder.Common.{ℕ, zero, suc, ◌≤◌, ◌≡◌, refl, arith, Bool, true, false, ◌||◌, ◌&&◌}
use recorder.Common.{
  Option, none, some, List, [], ◌∷◌, ◌++◌, length, take, All, ◌==◌, ltb, if◌then◌else◌,
}
use recorder.Segment.{SegmentHeader, SegmentFooter, boot_id_size}

pub record BootInfo : Type 0 where
  pub boot_seq : ℕ
  pub boot_id : List ℕ
  pub first_realtime_ts : ℕ
  pub last_realtime_ts : ℕ
  pub first_segment_seq : ℕ

-- `strncmp(x, y, n) == 0`
unfoldable pub strncmp_equal : ℕ → List ℕ → List ℕ → Bool
strncmp_equal zero xs ys = true
strncmp_equal (suc n) [] [] = true
strncmp_equal (suc n) [] (y ∷ ys) = false
strncmp_equal (suc n) (x ∷ xs) [] = false
strncmp_equal (suc n) (x ∷ xs) (y ∷ ys) = (x == y) && ((x == 0) || strncmp_equal n xs ys)

-- the test of the loop
abbrev pub is_boot : BootInfo → ℕ → List ℕ → Bool
is_boot b boot_seq boot_id = (b.boot_seq == boot_seq) || strncmp_equal 32 b.boot_id boot_id

-- the index of the boot
unfoldable pub find_boot : List BootInfo → ℕ → List ℕ → Option ℕ
find_boot [] boot_seq boot_id = none
find_boot (b ∷ boots) boot_seq boot_id =
    let later = find_boot boots boot_seq boot_id in
    if is_boot b boot_seq boot_id
    then some 0
    else elim later [ none ↦ none | some i ↦ some (suc i) ]

-- the end of the segment, as far as it is known
abbrev pub last_ts : SegmentHeader → SegmentFooter → ℕ
last_ts header footer =
    if footer.last_realtime_ts == 0 then header.first_realtime_ts else footer.last_realtime_ts

-- the boot with one more of its segments
abbrev pub widen : SegmentHeader → SegmentFooter → BootInfo → BootInfo
widen header footer b = record {
  boot_seq = b.boot_seq;
  boot_id = b.boot_id;
  first_realtime_ts =
      if header.first_realtime_ts == 0
      then b.first_realtime_ts
      else if (b.first_realtime_ts == 0) || ltb header.first_realtime_ts b.first_realtime_ts
      then header.first_realtime_ts
      else b.first_realtime_ts;
  last_realtime_ts =
      if ltb b.last_realtime_ts (last_ts header footer)
      then last_ts header footer
      else b.last_realtime_ts;
  first_segment_seq =
      if ltb header.segment_seq b.first_segment_seq
      then header.segment_seq
      else b.first_segment_seq;
}

abbrev pub widen_at : SegmentHeader → SegmentFooter → List BootInfo → ℕ → List BootInfo
widen_at header footer [] i = []
widen_at header footer (b ∷ boots) zero = widen header footer b ∷ boots
widen_at header footer (b ∷ boots) (suc i) = b ∷ widen_at header footer boots i

-- the boot of its first segment
abbrev pub new_boot : SegmentHeader → SegmentFooter → BootInfo
new_boot header footer = record {
  boot_seq = header.boot_seq;
  boot_id = take boot_id_size header.boot_id ++ (0 ∷ []);
  first_realtime_ts = header.first_realtime_ts;
  last_realtime_ts = last_ts header footer;
  first_segment_seq = header.segment_seq;
}

unfoldable pub add_boot : List BootInfo → SegmentHeader → SegmentFooter → List BootInfo
add_boot boots header footer = elim (find_boot boots header.boot_seq header.boot_id) [
  | none ↦ boots ++ (new_boot header footer ∷ [])
  | some i ↦ widen_at header footer boots i
]

-- Neither the number nor the id of one is that of the other.
abbrev pub Apart : BootInfo → BootInfo → Type 0
Apart b c = is_boot b c.boot_seq c.boot_id ≡ false

abbrev pub Distinct : List BootInfo → Type 0
Distinct [] = Unit
Distinct (b ∷ boots) = All (Apart b) boots × Distinct boots

module _ (header : SegmentHeader) (footer : SegmentFooter) where
  widen_at-All :
      (b : BootInfo) (boots : List BootInfo) (i : ℕ)
      → All (Apart b) boots
      → All (Apart b) (widen_at header footer boots i)
  widen_at-All b [] i all = all
  widen_at-All b (c ∷ boots) zero all = all
  widen_at-All b (c ∷ boots) (suc i) (apart, all) = (apart, widen_at-All b boots i all)

  widen_at-Distinct :
      (boots : List BootInfo) (i : ℕ) → Distinct boots → Distinct (widen_at header footer boots i)
  widen_at-Distinct [] i all = all
  widen_at-Distinct (c ∷ boots) zero all = all
  widen_at-Distinct (c ∷ boots) (suc i) (apart, all) =
      (widen_at-All c boots i apart, widen_at-Distinct boots i all)

snoc-All :
    (b c : BootInfo) (boots : List BootInfo)
    → All (Apart b) boots
    → Apart b c
    → All (Apart b) (boots ++ (c ∷ []))
snoc-All b c [] all apart = (apart, tt)
snoc-All b c (d ∷ boots) (p, all) apart = (p, snoc-All b c boots all apart)

snoc-Distinct :
    (c : BootInfo) (boots : List BootInfo)
    → Distinct boots
    → All (λ b. Apart b c) boots
    → Distinct (boots ++ (c ∷ []))
snoc-Distinct c [] all apart = (tt, tt)
snoc-Distinct c (b ∷ boots) (p, all) (apart, others) =
    (snoc-All b c boots p apart, snoc-Distinct c boots all others)

strncmp_equal-take :
    (n : ℕ) (xs ys rest : List ℕ)
    → n ≤ length ys
    → strncmp_equal n xs (take n ys ++ rest) ≡ strncmp_equal n xs ys
unfolding strncmp_equal
strncmp_equal-take zero xs ys rest h = refl
strncmp_equal-take (suc n) xs [] rest h = absurd (omega arith)
strncmp_equal-take (suc n) [] (y ∷ ys) rest h = refl
strncmp_equal-take (suc n) (x ∷ xs) (y ∷ ys) rest h =
    rw (strncmp_equal-take n xs ys rest (omega arith)) refl

find_boot-none :
    (boots : List BootInfo) (header : SegmentHeader) (footer : SegmentFooter)
    → 32 ≤ length header.boot_id
    → find_boot boots header.boot_seq header.boot_id ≡ none
    → All (λ b. Apart b (new_boot header footer)) boots
unfolding find_boot
find_boot-none [] header footer whole e = tt
find_boot-none (b ∷ boots) header footer whole e =
    go (is_boot b header.boot_seq header.boot_id) (find_boot boots header.boot_seq header.boot_id)
      refl refl e (λ next. find_boot-none boots header footer whole next)
  where
    go :
        (here : Bool) (later : Option ℕ)
        → is_boot b header.boot_seq header.boot_id ≡ here
        → find_boot boots header.boot_seq header.boot_id ≡ later
        → (if here then some 0 else elim later [ none ↦ none | some i ↦ some (suc i) ]) ≡ none
        → (find_boot boots header.boot_seq header.boot_id ≡ none
            → All (λ b. Apart b (new_boot header footer)) boots)
        → All (λ b. Apart b (new_boot header footer)) (b ∷ boots)
    go true later here next found more = absurd cc
    go false (some i) here next found more = absurd cc
    go false none here next found more =
        (rw (strncmp_equal-take 32 b.boot_id header.boot_id (0 ∷ []) whole) here, more next)

-- If no boot of the list has the number or the id of an earlier one, then that still holds after
-- `add_boot` of a segment whose header has at least 32 bytes of boot id.
pub add_boot-Distinct :
    (boots : List BootInfo) (header : SegmentHeader) (footer : SegmentFooter)
    → Distinct boots
    → 32 ≤ length header.boot_id
    → Distinct (add_boot boots header footer)
unfolding add_boot
add_boot-Distinct boots header footer all whole =
    go (find_boot boots header.boot_seq header.boot_id)
      (λ missing. find_boot-none boots header footer whole missing)
  where
    go :
        (found : Option ℕ)
        → (found ≡ none → All (λ b. Apart b (new_boot header footer)) boots)
        → Distinct (elim found [
          | none ↦ boots ++ (new_boot header footer ∷ [])
          | some i ↦ widen_at header footer boots i
        ])
    go none others = snoc-Distinct (new_boot header footer) boots all (others refl)
    go (some i) others = widen_at-Distinct header footer boots i all
