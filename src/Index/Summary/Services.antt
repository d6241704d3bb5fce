-- ===== src/Index/Summary/Services.antt =====
-- src/index.c: the service filter of a frame's record.
use recorder.Common.{ℕ, zero, suc, ◌+◌, ◌≤◌, ◌<◌, ◌≡◌, refl, ◌∙◌, arith, ◌⊎◌, inl, inr, true}
use recorder.Common.{
  List, [], ◌∷◌, ◌++◌, length, take, set, length-set, ltb, ◌==◌, ==_refl, Bool-cases, ltb→lt,
  Option, none, some,
}
use recorder.Segment.{SegmentFrameInfo}
use recorder.Index.{fnv1a64}
use recorder.Index.Summary.{
  IndexEntry, Summary, hash_seen, add_service, index_add_entry, add_entries, summarize,
  empty_summary, index_frame_may_contain_service,
}

-- the slots in use
abbrev in_use : Summary → List ℕ
in_use z = take z.service_count z.service_hashes

record IsSlots (z : Summary) : Type 0 where
  few : z.service_count ≤ 4
  four : length z.service_hashes ≡ 4

-- The filter answers yes for the hash.
abbrev Answers : ℕ → Summary → Type 0
Answers h z = (z.overflow ≡ 1) ⊎ (hash_seen (in_use z) h ≡ true)

-- A longer front part holds what a shorter one holds.
hash_seen-take :
    (n m : ℕ) (hs : List ℕ) (h : ℕ)
    → n ≤ m
    → hash_seen (take n hs) h ≡ true
    → hash_seen (take m hs) h ≡ true
unfolding hash_seen
hash_seen-take zero m hs h le e = cc
hash_seen-take (suc n) m [] h le e = cc
hash_seen-take (suc n) zero (x ∷ hs) h le e = absurd (omega arith)
hash_seen-take (suc n) (suc m) (x ∷ hs) h le e = elim (Bool-cases (x == h)) [
  | inl y ↦ rw y refl
  | inr y ↦ rw y (hash_seen-take n m hs h (omega arith) (rw y at e))
]

-- A hash put in the first free slot is found, and so is what was found before.
hash_seen_new :
    (n : ℕ) (hs : List ℕ) (h : ℕ) → n < length hs → hash_seen (take (suc n) (set hs n h)) h ≡ true
unfolding hash_seen
hash_seen_new n [] h lt = absurd (omega arith)
hash_seen_new zero (x ∷ hs) h lt = rw (==_refl h) refl
hash_seen_new (suc n) (x ∷ hs) h lt = elim (Bool-cases (x == h)) [
  | inl y ↦ rw y refl
  | inr y ↦ rw y (hash_seen_new n hs h (omega arith))
]

hash_seen_old :
    (n : ℕ) (hs : List ℕ) (v h : ℕ)
    → hash_seen (take n hs) h ≡ true
    → hash_seen (take (suc n) (set hs n v)) h ≡ true
unfolding hash_seen
hash_seen_old zero hs v h e = cc
hash_seen_old (suc n) [] v h e = cc
hash_seen_old (suc n) (x ∷ hs) v h e = elim (Bool-cases (x == h)) [
  | inl y ↦ rw y refl
  | inr y ↦ rw y (hash_seen_old n hs v h (rw y at e))
]

abbrev with_new : List ℕ → Summary → Summary
with_new unit z = record z {
  service_hashes = set z.service_hashes z.service_count (fnv1a64 unit);
  service_count = suc z.service_count;
}

-- `add_service` by its three cases: a hash that is there, a free slot, no free slot.
add_service-cases :
    (unit : List ℕ) (z : Summary)
    → ((add_service (some unit) z ≡ z) × (hash_seen (in_use z) (fnv1a64 unit) ≡ true))
      ⊎ ((add_service (some unit) z ≡ with_new unit z) × (z.service_count < 4))
      ⊎ (add_service (some unit) z ≡ record z { overflow = 1 })
unfolding add_service
add_service-cases unit z = elim (Bool-cases (hash_seen (in_use z) (fnv1a64 unit))) [
  | inl seen ↦ inl (rw seen refl, seen)
  | inr unseen ↦ elim (Bool-cases (ltb z.service_count 4)) [
    | inr full ↦ inr (inr (rw (unseen, full) refl))
    | inl free ↦ inr (inl (rw (unseen, free) refl, ltb→lt z.service_count 4 free))
  ]
]

add_service-IsSlots : (u : Option (List ℕ)) (z : Summary) → IsSlots z → IsSlots (add_service u z)
add_service-IsSlots none z v = unfold add_service in v
add_service-IsSlots (some unit) z v = elim (add_service-cases unit z) [
  | inl (e, seen) ↦ rw e v
  | inr (inr e) ↦ rw e record { few = v.few; four = v.four }
  | inr (inl (e, free)) ↦ rw e record {
    few = omega arith;
    four = length-set z.service_hashes z.service_count (fnv1a64 unit) ∙ v.four;
  }
]

add_service_new :
    (unit : List ℕ) (z : Summary) → IsSlots z → Answers (fnv1a64 unit) (add_service (some unit) z)
add_service_new unit z v = elim (add_service-cases unit z) [
  | inl (e, seen) ↦ rw e (inr seen)
  | inr (inr e) ↦ rw e (inl refl)
  | inr (inl (e, free)) ↦
      rw e (
        inr (hash_seen_new z.service_count z.service_hashes (fnv1a64 unit) (omega (arith, v.four))))
]

add_service_old :
    (u : Option (List ℕ)) (h : ℕ) (z : Summary) → Answers h z → Answers h (add_service u z)
add_service_old none h z a = unfold add_service in a
add_service_old (some unit) h z a = elim (add_service-cases unit z) [
  | inl (e, seen) ↦ rw e a
  | inr (inr e) ↦ rw e (inl refl)
  | inr (inl (e, free)) ↦ rw e (elim a [
    | inl full ↦ inl full
    | inr found ↦ inr (hash_seen_old z.service_count z.service_hashes (fnv1a64 unit) h found)
  ])
]

add_entries-IsSlots :
    (es : List IndexEntry) (i : ℕ) (z : Summary) → IsSlots z → IsSlots (add_entries es i z)
unfolding add_entries index_add_entry
add_entries-IsSlots [] i z v = v
add_entries-IsSlots (e ∷ es) i z v =
    add_entries-IsSlots es (i + 1) (index_add_entry e i z)
      (add_service-IsSlots e.unit _ record { few = v.few; four = v.four })

add_entries_old :
    (es : List IndexEntry) (i h : ℕ) (z : Summary) → Answers h z → Answers h (add_entries es i z)
unfolding add_entries index_add_entry
add_entries_old [] i h z a = a
add_entries_old (e ∷ es) i h z a =
    add_entries_old es (i + 1) h (index_add_entry e i z) (add_service_old e.unit h _ a)

-- The entry's unit is answered for after all entries.
add_entries_new :
    (before : List IndexEntry) (e : IndexEntry) (after : List IndexEntry) (unit : List ℕ) (i : ℕ)
    (z : Summary)
    → IsSlots z
    → e.unit ≡ some unit
    → Answers (fnv1a64 unit) (add_entries (before ++ (e ∷ after)) i z)
unfolding add_entries index_add_entry
add_entries_new [] e after unit i z v u =
    add_entries_old after (i + 1) (fnv1a64 unit) _
      (rw u (add_service_new unit _ record { few = v.few; four = v.four }))
add_entries_new (b ∷ before) e after unit i z v u =
    add_entries_new before e after unit (i + 1) (index_add_entry b i z)
      (add_service-IsSlots b.unit _ record { few = v.few; four = v.four }) u

-- The service filter has no false negatives: if an entry of the chunk has a unit, the record made
-- for the chunk says that it may contain that unit, whatever the other entries are and also when
-- they use up the four slots.
pub index_frame_may_contain_service-summarize :
    (frame : SegmentFrameInfo) (before : List IndexEntry) (e : IndexEntry) (after : List IndexEntry)
    (unit : List ℕ)
    → e.unit ≡ some unit
    → index_frame_may_contain_service (summarize frame (before ++ (e ∷ after))) (some unit) ≡ true
unfolding index_frame_may_contain_service summarize
index_frame_may_contain_service-summarize frame before e after unit u =
    let z = add_entries (before ++ (e ∷ after)) 0 empty_summary in
    let v =
      add_entries-IsSlots (before ++ (e ∷ after)) 0 empty_summary
        record { few = omega arith; four = refl } in
    elim (add_entries_new before e after unit 0 empty_summary
      record { few = omega arith; four = refl } u) [
        | inl full ↦ rw full refl
        | inr found ↦ elim (Bool-cases (z.overflow == 0)) [
          | inr lost ↦ rw lost refl
          | inl kept ↦
              rw kept (hash_seen-take z.service_count 4 z.service_hashes (fnv1a64 unit) v.few found)
        ]
      ]
