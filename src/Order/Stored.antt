-- ===== src/Order/Stored.antt =====
-- src/librecorder.c: the comparisons of entries, by their parts.
use recorder.Common.{
  ℕ, ◌≡◌, refl, sym, ap, ap₂, subst, ◌∙◌, arith, inl, inr, ◌⊎◌, List, [], ◌∷◌, ltb, Bool-cases,
}
use recorder.Order.{
  EntryKey, Sign, less, same, greater, compare_then, or_then, strcmp, group_name, compare_location,
  compare_stored_entries, PlayerOrder, recorded, wallclock, compare_iterator_entries,
}

abbrev pub flip : Sign → Sign
flip less = greater
flip same = same
flip greater = less

-- A comparison that orders, up to ties: swapped arguments swap the result, a tie cannot be told
-- from its other side, and less is transitive.
pub record IsOrder {A : Type 0} (c : A → A → Sign) : Type 0 where
  pub swaps : (x y : A) → c y x ≡ flip (c x y)
  pub ties : (x y z : A) → c x y ≡ same → c x z ≡ c y z
  pub chains : (x y z : A) → c x y ≡ less → c y z ≡ less → c x z ≡ less

abbrev by : {A : Type 0} → (A → A → Sign) → (A → A → Sign) → A → A → Sign
by c d x y = or_then (c x y) (d x y)

Sign-cases : (s : Sign) → (s ≡ less) ⊎ (s ≡ same) ⊎ (s ≡ greater)
Sign-cases less = inl refl
Sign-cases same = inr (inl refl)
Sign-cases greater = inr (inr refl)

or_then-flip : (s t : Sign) → or_then (flip s) (flip t) ≡ flip (or_then s t)
unfolding or_then
or_then-flip less t = refl
or_then-flip same t = refl
or_then-flip greater t = refl

or_then-same : (s t : Sign) → or_then s t ≡ same → (s ≡ same) × (t ≡ same)
unfolding or_then
or_then-same same t e = (refl, e)
or_then-same less t e = cc
or_then-same greater t e = cc

or_then-less : (s t : Sign) → or_then s t ≡ less → (s ≡ less) ⊎ ((s ≡ same) × (t ≡ less))
unfolding or_then
or_then-less less t e = inl refl
or_then-less same t e = inr (refl, e)
or_then-less greater t e = cc

module _ {A : Type 0} (c d : A → A → Sign) (vc : IsOrder c) (vd : IsOrder d) where
  right_tie : (x y z : A) → c y z ≡ same → c x z ≡ c x y
  right_tie x y z e = vc.swaps z x ∙ ap flip (sym (vc.ties y z x e)) ∙ sym (vc.swaps y x)

  less_by_first : (x z : A) → c x z ≡ less → by c d x z ≡ less
  unfolding or_then
  less_by_first x z e = rw e refl

  by-chains : (x y z : A) → by c d x y ≡ less → by c d y z ≡ less → by c d x z ≡ less
  by-chains x y z p q = elim (or_then-less (c x y) (d x y) p) [
    | inl a ↦ elim (or_then-less (c y z) (d y z) q) [
      | inl b ↦ less_by_first x z (vc.chains x y z a b)
      | inr (b, b') ↦ less_by_first x z (right_tie x y z b ∙ a)
    ]
    | inr (a, a') ↦ elim (or_then-less (c y z) (d y z) q) [
      | inl b ↦ less_by_first x z (vc.ties x y z a ∙ b)
      | inr (b, b') ↦ unfold or_then in rw (vc.ties x y z a, b) (vd.chains x y z a' b')
    ]
  ]

  -- One comparison after the other orders if both do.
  by-IsOrder : IsOrder (by c d)
  by-IsOrder = record {
    swaps = λ x y. ap₂ or_then (vc.swaps x y) (vd.swaps x y) ∙ or_then-flip (c x y) (d x y);
    ties = λ x y z e.
        let (p, q) = or_then-same (c x y) (d x y) e in
        ap₂ or_then (vc.ties x y z p) (vd.ties x y z q);
    chains = by-chains;
  }

-- numbers
abbrev number : ℕ → ℕ → Sign
number a b = compare_then a b same

number-IsOrder : {A : Type 0} (f : A → ℕ) → IsOrder (λ x y. number (f x) (f y))
unfolding compare_then
number-IsOrder f = record {
  swaps = λ x y. ground arith;
  ties = λ x y z e. ground (arith, e);
  chains = λ x y z p q. ground (arith, p, q);
}

compare_then_lem : (a b : ℕ) (next : Sign) → compare_then a b next ≡ or_then (number a b) next
unfolding compare_then or_then
compare_then_lem a b next = ground arith

-- names
strcmp-swaps : (xs ys : List ℕ) → strcmp ys xs ≡ flip (strcmp xs ys)
unfolding strcmp
strcmp-swaps [] [] = refl
strcmp-swaps [] (y ∷ ys) = refl
strcmp-swaps (x ∷ xs) [] = refl
strcmp-swaps (x ∷ xs) (y ∷ ys) =
    compare_then_lem y x (strcmp ys xs)
    ∙ ap₂ or_then ((number-IsOrder (λ n. n)).swaps x y) (strcmp-swaps xs ys)
    ∙ or_then-flip (number x y) (strcmp xs ys)
    ∙ ap flip (sym (compare_then_lem x y (strcmp xs ys)))

strcmp-eq : (xs ys : List ℕ) → strcmp xs ys ≡ same → xs ≡ ys
unfolding strcmp compare_then
strcmp-eq [] [] e = refl
strcmp-eq [] (y ∷ ys) e = cc
strcmp-eq (x ∷ xs) [] e = cc
strcmp-eq (x ∷ xs) (y ∷ ys) e = elim (Bool-cases (ltb x y)) [
  | inl a ↦ let wrong = rw a at e in cc
  | inr a ↦ elim (Bool-cases (ltb y x)) [
    | inl b ↦ let wrong = rw (a, b) at e in cc
    | inr b ↦ ap₂ ◌∷◌ (ground (arith, a, b)) (strcmp-eq xs ys (rw (a, b) at e))
  ]
]

number-eq : (a b : ℕ) → number a b ≡ same → a ≡ b
unfolding compare_then
number-eq a b e = ground (arith, e)

strcmp-chains :
    (xs ys zs : List ℕ) → strcmp xs ys ≡ less → strcmp ys zs ≡ less → strcmp xs zs ≡ less
unfolding strcmp or_then
strcmp-chains [] [] zs p q = q
strcmp-chains (x ∷ xs) [] zs p q = cc
strcmp-chains xs (y ∷ ys) [] p q = cc
strcmp-chains [] (y ∷ ys) (z ∷ zs) p q = refl
strcmp-chains (x ∷ xs) (y ∷ ys) (z ∷ zs) p q =
    elim (or_then-less (number x y) (strcmp xs ys) (sym (compare_then_lem x y _) ∙ p)) [
      | inl a ↦ elim (or_then-less (number y z) (strcmp ys zs) (sym (compare_then_lem y z _) ∙ q)) [
        | inl b ↦ head ((number-IsOrder (λ n. n)).chains x y z a b)
        | inr (b, b') ↦ head (subst (λ n. number x n ≡ less) (number-eq y z b) a)
      ]
      | inr (a, a') ↦
          elim (or_then-less (number y z) (strcmp ys zs) (sym (compare_then_lem y z _) ∙ q)) [
            | inl b ↦ head ((number-IsOrder (λ n. n)).ties x y z a ∙ b)
            | inr (b, b') ↦
                compare_then_lem x z _
                ∙ ap₂ or_then ((number-IsOrder (λ n. n)).ties x y z a ∙ b)
                    (strcmp-chains xs ys zs a' b')
          ]
    ]
  where
    head : number x z ≡ less → compare_then x z (strcmp xs zs) ≡ less
    head e = compare_then_lem x z _ ∙ ap (λ s. or_then s (strcmp xs zs)) e

group-IsOrder : IsOrder (λ (a b : EntryKey). strcmp (group_name a.group) (group_name b.group))
group-IsOrder = record {
  swaps = λ a b. strcmp-swaps (group_name a.group) (group_name b.group);
  ties = λ a b c e.
      ap (λ t. strcmp t (group_name c.group))
        (strcmp-eq (group_name a.group) (group_name b.group) e);
  chains =
      λ a b c p q. strcmp-chains (group_name a.group) (group_name b.group) (group_name c.group) p q;
}

-- A comparison of a field, and then another one.
field-IsOrder :
    (f : EntryKey → ℕ) (next : EntryKey → EntryKey → Sign)
    → IsOrder next
    → IsOrder (λ a b. compare_then (f a) (f b) (next a b))
field-IsOrder f next v =
    let w = by-IsOrder (λ a b. number (f a) (f b)) next (number-IsOrder f) v in
    record {
      swaps = λ a b.
          compare_then_lem (f b) (f a) _
          ∙ w.swaps a b
          ∙ ap flip (sym (compare_then_lem (f a) (f b) _));
      ties = λ a b c e.
          compare_then_lem (f a) (f c) _
          ∙ w.ties a b c (sym (compare_then_lem (f a) (f b) _) ∙ e)
          ∙ sym (compare_then_lem (f b) (f c) _);
      chains = λ a b c p q.
          compare_then_lem (f a) (f c) _
          ∙ w.chains a b c (sym (compare_then_lem (f a) (f b) _) ∙ p)
              (sym (compare_then_lem (f b) (f c) _) ∙ q);
    }

same-IsOrder : IsOrder (λ (a b : EntryKey). same)
same-IsOrder = record { swaps = λ a b. refl; ties = λ a b c e. refl; chains = λ a b c p q. p }

location-IsOrder : IsOrder compare_location
unfolding compare_location
location-IsOrder =
    by-IsOrder (λ a b. strcmp (group_name a.group) (group_name b.group)) _ group-IsOrder
      (field-IsOrder (λ e. e.segment_seq) _
        (field-IsOrder (λ e. e.frame_offset) _
          (field-IsOrder (λ e. e.frame_entry_index) _ same-IsOrder)))

-- In either order of the player, the comparison of entries is an order up to ties: swapped
-- arguments swap the result, entries that tie compare alike with every other entry, and less is
-- transitive.
pub compare_iterator_entries-IsOrder :
    (order : PlayerOrder) → IsOrder (compare_iterator_entries order)
unfolding compare_iterator_entries compare_stored_entries
compare_iterator_entries-IsOrder wallclock =
    field-IsOrder (λ e. e.realtime_ts) _ (field-IsOrder (λ e. e.boot_seq) _ location-IsOrder)
compare_iterator_entries-IsOrder recorded =
    field-IsOrder (λ e. e.boot_seq) _
      (field-IsOrder (λ e. e.monotonic_ts) _
        (field-IsOrder (λ e. e.monotonic_tie_order) _ location-IsOrder))
