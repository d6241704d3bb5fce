-- ===== src/Boots/Stable.antt =====
-- src/recorder.c: the numbers that `boot_registry_seq` gives.
use recorder.Common.{
  ℕ, zero, suc, ◌+◌, ◌-◌, ◌<◌, ◌≤◌, ◌≡◌, refl, sym, ap, ◌∙◌, arith, inl, inr, none, some,
  Option-cases, Bool-cases, true,
}
use recorder.Common.{List, [], ◌∷◌, ◌++◌, length, take, get_or, bytes_eq, bytes_eq_refl, lt→ltb}
use recorder.Boots.{BootEntry, boot_find, new_boot, boot_registry_get, boot_registry_seq}
use mathlib.Core.Option.{some-injective}

-- The boots carry the numbers from `k` on.
abbrev pub Numbered : List BootEntry → ℕ → Type 0
Numbered [] k = Unit
Numbered (b ∷ boots) k = (b.seq ≡ k) × Numbered boots (suc k)

take-take : (n : ℕ) (xs : List ℕ) → take n (take n xs) ≡ take n xs
take-take zero xs = refl
take-take (suc n) [] = refl
take-take (suc n) (x ∷ xs) = ap (λ t. x ∷ t) (take-take n xs)

-- What is found stays found when a boot is added.
boot_find-append_old :
    (boots more : List BootEntry) (id : List ℕ) (i j : ℕ)
    → boot_find boots id i ≡ some j
    → boot_find (boots ++ more) id i ≡ some j
unfolding boot_find
boot_find-append_old [] more id i j e = cc
boot_find-append_old (b ∷ boots) more id i j e =
    elim (Bool-cases (bytes_eq (take 32 b.id) (take 32 id))) [
      | inl hit ↦ rw hit (rw hit at e)
      | inr miss ↦ rw miss (boot_find-append_old boots more id (suc i) j (rw miss at e))
    ]

boot_find-append_new :
    (boots : List BootEntry) (b : BootEntry) (id : List ℕ) (i : ℕ)
    → boot_find boots id i ≡ none
    → bytes_eq (take 32 b.id) (take 32 id) ≡ true
    → boot_find (boots ++ (b ∷ [])) id i ≡ some (i + length boots)
unfolding boot_find
boot_find-append_new [] b id i e hit = rw hit (ap some (omega arith))
boot_find-append_new (x ∷ boots) b id i e hit =
    elim (Bool-cases (bytes_eq (take 32 x.id) (take 32 id))) [
      | inl other ↦ let wrong = rw other at e in cc
      | inr miss ↦
          rw miss
            (boot_find-append_new boots b id (suc i) (rw miss at e) hit ∙ ap some (omega arith))
    ]

Numbered-append :
    (boots : List BootEntry) (b : BootEntry) (k : ℕ)
    → Numbered boots k
    → b.seq ≡ k + length boots
    → Numbered (boots ++ (b ∷ [])) k
Numbered-append [] b k v e = (omega (arith, e), tt)
Numbered-append (x ∷ boots) b k (s, v) e = (s, Numbered-append boots b (suc k) v (omega (arith, e)))

-- The boot found at a place has its number.
boot_find-seq :
    (boots : List BootEntry) (id : List ℕ) (k j : ℕ) (d : BootEntry)
    → Numbered boots k
    → boot_find boots id k ≡ some j
    → (get_or boots (j - k) d).seq ≡ j
unfolding boot_find
boot_find-seq [] id k j d v e = cc
boot_find-seq (b ∷ boots) id k j d (s, v) e =
    elim (Bool-cases (bytes_eq (take 32 b.id) (take 32 id))) [
      | inl hit ↦
          let here : k ≡ j = some-injective k j (rw hit at e) in
          ap (λ n. (get_or (b ∷ boots) n d).seq) (let z : j - k ≡ 0 = omega arith in z) ∙ s ∙ here
      | inr miss ↦
          let later = boot_find-later boots id (suc k) j (rw miss at e) in
          ap (λ n. (get_or (b ∷ boots) n d).seq)
            (let z : j - k ≡ suc (j - suc k) = omega arith in z)
          ∙ boot_find-seq boots id (suc k) j d v (rw miss at e)
    ]
  where
    boot_find-later :
        (bs : List BootEntry) (x : List ℕ) (i n : ℕ) → boot_find bs x i ≡ some n → i ≤ n
    boot_find-later [] x i n e = cc
    boot_find-later (c ∷ bs) x i n e = elim (Bool-cases (bytes_eq (take 32 c.id) (take 32 x))) [
      | inl hit ↦ let here : i ≡ n = some-injective i n (rw hit at e) in omega arith
      | inr miss ↦ omega (arith, boot_find-later bs x (suc i) n (rw miss at e))
    ]

seq_at :
    (boots : List BootEntry) (id : List ℕ) (j : ℕ) (d : BootEntry)
    → Numbered boots 0
    → boot_find boots id 0 ≡ some j
    → (get_or boots j d).seq ≡ j
seq_at boots id j d v e =
    ap (λ n. (get_or boots n d).seq) (let z : j ≡ j - 0 = omega arith in z)
    ∙ boot_find-seq boots id 0 j d v e

-- While a registry of numbered boots has room, looking a boot id up keeps the boots numbered by
-- their places, gives the number at which that id is found from then on, and leaves every boot
-- that was found before at its number.
pub boot_registry_seq-stable :
    (boots : List BootEntry) (id : List ℕ)
    → length boots < 256
    → Numbered boots 0
    → Numbered (boot_registry_seq boots id).0 0
      × ((boot_find (boot_registry_seq boots id).0 id 0 ≡ some (boot_registry_seq boots id).1)
          × ((other : List ℕ) (j : ℕ)
              → boot_find boots other 0 ≡ some j
              → boot_find (boot_registry_seq boots id).0 other 0 ≡ some j))
unfolding boot_registry_seq boot_registry_get
boot_registry_seq-stable boots id room v = elim (Option-cases (boot_find boots id 0)) [
  | inr (j, hit) ↦
      rw (hit, boot_registry_get)
        (v, (hit ∙ ap some (sym (seq_at boots id j (new_boot boots id) v hit)), λ other k e. e))
  | inl miss ↦
      let b = new_boot boots id in
      let eq : bytes_eq (take 32 (take 32 id)) (take 32 id) ≡ true =
        ap (λ t. bytes_eq t (take 32 id)) (take-take 32 id) ∙ bytes_eq_refl (take 32 id) in
      let v' = Numbered-append boots b 0 v (omega arith) in
      let found : boot_find (boots ++ (b ∷ [])) id 0 ≡ some (length boots) =
        boot_find-append_new boots b id 0 miss eq ∙ ap some (omega arith) in
      rw (miss, lt→ltb (length boots) 256 room, boot_registry_get)
        (
          v',
          (
            found ∙ ap some (sym (seq_at (boots ++ (b ∷ [])) id (length boots) b v' found)),
            λ other k e. boot_find-append_old boots (b ∷ []) other 0 k e,
          ),
        )
]
