-- ===== src/Retention/Sort.antt =====
-- src/recorder.c: the order that `retention_sort` makes.
use recorder.Common.{
  ℕ, zero, suc, ◌+◌, ◌≡◌, refl, sym, ap, ◌∙◌, arith, inl, inr, Bool, true, false, Bool-cases,
  if◌then◌else◌,
}
use recorder.Common.{List, [], ◌∷◌, All, length}
use recorder.Retention.{RetainedFile, before, sort_inner, sort_outer, retention_sort}

-- No segment belongs in front of an earlier one.
abbrev pub Sorted : List RetainedFile → Type 0
Sorted [] = Unit
Sorted (x ∷ xs) = All (λ y. before y x ≡ false) xs × Sorted xs

-- how many segments pass the test
abbrev pub count_where : (RetainedFile → Bool) → List RetainedFile → ℕ
count_where p [] = 0
count_where p (x ∷ xs) = (if p x then 1 else 0) + count_where p xs

module _ (p : RetainedFile → Bool) where
  sort_inner-count :
      (x : RetainedFile) (ys : List RetainedFile)
      → count_where p ((sort_inner x ys).0 ∷ (sort_inner x ys).1) ≡ count_where p (x ∷ ys)
  unfolding sort_inner
  sort_inner-count x [] = refl
  sort_inner-count x (y ∷ ys) = elim (Bool-cases (before y x)) [
    | inl swap ↦ rw swap (omega (arith, sort_inner-count y ys))
    | inr keep ↦ rw keep (omega (arith, sort_inner-count x ys))
  ]

  sort_outer-count :
      (n : ℕ) (xs : List RetainedFile) → count_where p (sort_outer n xs) ≡ count_where p xs
  unfolding sort_outer
  sort_outer-count zero xs = refl
  sort_outer-count (suc n) [] = refl
  sort_outer-count (suc n) (x ∷ xs) =
      omega (arith, sort_outer-count n (sort_inner x xs).1, sort_inner-count x xs)

  pub retention_sort-count :
      (xs : List RetainedFile) → count_where p (retention_sort xs) ≡ count_where p xs
  unfolding retention_sort
  retention_sort-count xs = sort_outer-count (length xs) xs

none-count :
    (p : RetainedFile → Bool) (xs : List RetainedFile)
    → All (λ x. p x ≡ false) xs
    → count_where p xs ≡ 0
none-count p [] all = refl
none-count p (x ∷ xs) (e, all) = rw e (omega (arith, none-count p xs all))

count-none :
    (p : RetainedFile → Bool) (xs : List RetainedFile)
    → count_where p xs ≡ 0
    → All (λ x. p x ≡ false) xs
count-none p [] e = tt
count-none p (x ∷ xs) e = elim (Bool-cases (p x)) [
  | inl on ↦ let wrong : 1 + count_where p xs ≡ 0 = rw on at e in absurd (omega (arith, wrong))
  | inr off ↦
      let rest : 0 + count_where p xs ≡ 0 = rw off at e in
      (off, count-none p xs (omega (arith, rest)))
]

-- What no segment of the sorted list is, none of the list is.
pub retention_sort-none :
    (p : RetainedFile → Bool) (xs : List RetainedFile)
    → All (λ x. p x ≡ false) (retention_sort xs)
    → All (λ x. p x ≡ false) xs
retention_sort-none p xs all =
    count-none p xs (sym (retention_sort-count p xs) ∙ none-count p (retention_sort xs) all)

-- What holds of all segments holds of all after a pass, and after all passes.
module _ (P : RetainedFile → Type 0) where
  sort_inner-All :
      (x : RetainedFile) (ys : List RetainedFile)
      → P x
      → All P ys
      → P (sort_inner x ys).0 × All P (sort_inner x ys).1
  unfolding sort_inner
  sort_inner-All x [] h hs = (h, tt)
  sort_inner-All x (y ∷ ys) h (k, hs) = elim (Bool-cases (before y x)) [
    | inl swap ↦ let (a, b) = sort_inner-All y ys k hs in rw swap (a, (h, b))
    | inr keep ↦ let (a, b) = sort_inner-All x ys h hs in rw keep (a, (k, b))
  ]

  sort_outer-All : (n : ℕ) (xs : List RetainedFile) → All P xs → All P (sort_outer n xs)
  unfolding sort_outer
  sort_outer-All zero xs h = h
  sort_outer-All (suc n) [] h = h
  sort_outer-All (suc n) (x ∷ xs) (h, hs) =
      let (a, b) = sort_inner-All x xs h hs in (a, sort_outer-All n (sort_inner x xs).1 b)

pub retention_sort-All :
    (P : RetainedFile → Type 0) (xs : List RetainedFile) → All P xs → All P (retention_sort xs)
unfolding retention_sort
retention_sort-All P xs all = sort_outer-All P (length xs) xs all

-- `before` is a strict order on importance and age: where neither of two goes in front, they tie.
before_through :
    (x y m : RetainedFile) → before y x ≡ true → before y m ≡ false → before x m ≡ false
before_through x y m h k = ground arith

before_past : (x y m : RetainedFile) → before y x ≡ false → before x m ≡ false → before y m ≡ false
before_past x y m h k = ground arith

before_irrefl : (x : RetainedFile) → before x x ≡ false
before_irrefl x = ground arith

length-sort_inner :
    (x : RetainedFile) (ys : List RetainedFile) → length (sort_inner x ys).1 ≡ length ys
unfolding sort_inner
length-sort_inner x [] = refl
length-sort_inner x (y ∷ ys) = elim (Bool-cases (before y x)) [
  | inl swap ↦ rw swap (ap suc (length-sort_inner y ys))
  | inr keep ↦ rw keep (ap suc (length-sort_inner x ys))
]

-- The first place gets a segment that nothing belongs in front of.
sort_inner-least :
    (x : RetainedFile) (ys : List RetainedFile)
    → (before x (sort_inner x ys).0 ≡ false)
      × All (λ z. before z (sort_inner x ys).0 ≡ false) (sort_inner x ys).1
unfolding sort_inner
sort_inner-least x [] = (before_irrefl x, tt)
sort_inner-least x (y ∷ ys) = elim (Bool-cases (before y x)) [
  | inl swap ↦
      let (a, b) = sort_inner-least y ys in
      let c = before_through x y (sort_inner y ys).0 swap a in rw swap (c, (c, b))
  | inr keep ↦
      let (a, b) = sort_inner-least x ys in
      rw keep (a, (before_past x y (sort_inner x ys).0 keep a, b))
]

sort_outer-Sorted : (n : ℕ) (xs : List RetainedFile) → length xs ≡ n → Sorted (sort_outer n xs)
unfolding sort_outer
sort_outer-Sorted zero [] h = tt
sort_outer-Sorted zero (x ∷ xs) h = absurd (omega arith)
sort_outer-Sorted (suc n) [] h = tt
sort_outer-Sorted (suc n) (x ∷ xs) h = (
  sort_outer-All (λ z. before z (sort_inner x xs).0 ≡ false) n (sort_inner x xs).1
      (sort_inner-least x xs).1,
  sort_outer-Sorted n (sort_inner x xs).1 (omega (arith, length-sort_inner x xs)),
)

-- After `retention_sort` no segment belongs in front of an earlier one, the less important and
-- then the older coming first, and for every test as many segments pass it as before, so that
-- none is lost or invented.
pub retention_sort-Sorted :
    (xs : List RetainedFile)
    → Sorted (retention_sort xs)
      × ((p : RetainedFile → Bool) → count_where p (retention_sort xs) ≡ count_where p xs)
unfolding retention_sort
retention_sort-Sorted xs = (sort_outer-Sorted (length xs) xs refl, λ p. retention_sort-count p xs)
