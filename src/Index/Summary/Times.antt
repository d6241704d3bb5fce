-- ===== src/Index/Summary/Times.antt =====
-- src/index.c: the time ranges of a frame's record.
use recorder.Common.{ℕ, ◌+◌, ◌≤◌, ◌≡◌, refl, arith, List, [], ◌∷◌, All, ltb, ◌==◌, if◌then◌else◌}
use recorder.Common.{◌||◌, Option, none, some}
use recorder.Segment.{SegmentFrameInfo}
use recorder.Index.{IndexFrame}
use recorder.Index.Summary.{
  IndexEntry, Summary, add_service, index_add_entry, add_entries, summarize, empty_summary,
}

-- a range of wall-clock times and one of monotonic times
pub record Ranges : Type 0 where
  pub min_rt : ℕ
  pub max_rt : ℕ
  pub min_mono : ℕ
  pub max_mono : ℕ

-- The entry lies in both ranges.
pub record Holds (r : Ranges) (e : IndexEntry) : Type 0 where
  pub min_rt : r.min_rt ≤ e.realtime_ts
  pub max_rt : e.realtime_ts ≤ r.max_rt
  pub min_mono : r.min_mono ≤ e.monotonic_ts
  pub max_mono : e.monotonic_ts ≤ r.max_mono

-- The ranges of `s` lie in those of `r`.
pub record Within (r s : Ranges) : Type 0 where
  pub min_rt : r.min_rt ≤ s.min_rt
  pub max_rt : s.max_rt ≤ r.max_rt
  pub min_mono : r.min_mono ≤ s.min_mono
  pub max_mono : s.max_mono ≤ r.max_mono

abbrev ranges : Summary → Ranges
ranges z = record {
  min_rt = z.min_rt;
  max_rt = z.max_rt;
  min_mono = z.min_mono;
  max_mono = z.max_mono;
}

abbrev pub frame_ranges : IndexFrame → Ranges
frame_ranges f = record {
  min_rt = f.min_realtime_ts;
  max_rt = f.max_realtime_ts;
  min_mono = f.min_monotonic_ts;
  max_mono = f.max_monotonic_ts;
}

-- what an entry at the index `i` makes of the ranges
abbrev extend : IndexEntry → ℕ → Ranges → Ranges
extend e i r = record {
  min_rt = if (i == 0) || ltb e.realtime_ts r.min_rt then e.realtime_ts else r.min_rt;
  max_rt = if (i == 0) || ltb r.max_rt e.realtime_ts then e.realtime_ts else r.max_rt;
  min_mono = if (i == 0) || ltb e.monotonic_ts r.min_mono then e.monotonic_ts else r.min_mono;
  max_mono = if (i == 0) || ltb r.max_mono e.monotonic_ts then e.monotonic_ts else r.max_mono;
}

-- The services do not touch the times.
add_service-ranges : (u : Option (List ℕ)) (z : Summary) → ranges (add_service u z) ≡ ranges z
unfolding add_service
add_service-ranges none z = refl
add_service-ranges (some u) z = ground arith

entry_ranges :
    (e : IndexEntry) (i : ℕ) (z : Summary) → ranges (index_add_entry e i z) ≡ extend e i (ranges z)
unfolding index_add_entry
entry_ranges e i z = add_service-ranges e.unit _

extend-Holds : (e : IndexEntry) (i : ℕ) (r : Ranges) → Holds (extend e i r) e
extend-Holds e i r = record {
  min_rt = ground arith;
  max_rt = ground arith;
  min_mono = ground arith;
  max_mono = ground arith;
}

extend-Within : (e : IndexEntry) (i : ℕ) (r : Ranges) → Within (extend e (i + 1) r) r
extend-Within e i r = record {
  min_rt = ground arith;
  max_rt = ground arith;
  min_mono = ground arith;
  max_mono = ground arith;
}

-- The first entry sets the ranges, whatever they were.
extend_first : (b : Ranges) (e : IndexEntry) (r : Ranges) → Holds b e → Within b (extend e 0 r)
extend_first b e r h = record {
  min_rt = h.min_rt;
  max_rt = h.max_rt;
  min_mono = h.min_mono;
  max_mono = h.max_mono;
}

extend_narrow :
    (b : Ranges) (e : IndexEntry) (i : ℕ) (r : Ranges)
    → Holds b e
    → Within b r
    → Within b (extend e i r)
extend_narrow b e i r h w = record {
  min_rt = ground (arith, h.min_rt, w.min_rt);
  max_rt = ground (arith, h.max_rt, w.max_rt);
  min_mono = ground (arith, h.min_mono, w.min_mono);
  max_mono = ground (arith, h.max_mono, w.max_mono);
}

Within-refl : (r : Ranges) → Within r r
Within-refl r = record {
  min_rt = omega arith;
  max_rt = omega arith;
  min_mono = omega arith;
  max_mono = omega arith;
}

Within-trans : (a b c : Ranges) → Within a b → Within b c → Within a c
Within-trans a b c v w = record {
  min_rt = omega (arith, v.min_rt, w.min_rt);
  max_rt = omega (arith, v.max_rt, w.max_rt);
  min_mono = omega (arith, v.min_mono, w.min_mono);
  max_mono = omega (arith, v.max_mono, w.max_mono);
}

Holds-wider : (a b : Ranges) (e : IndexEntry) → Within a b → Holds b e → Holds a e
Holds-wider a b e w h = record {
  min_rt = omega (arith, w.min_rt, h.min_rt);
  max_rt = omega (arith, w.max_rt, h.max_rt);
  min_mono = omega (arith, w.min_mono, h.min_mono);
  max_mono = omega (arith, w.max_mono, h.max_mono);
}

-- Later entries only widen the ranges.
add_entries-Within :
    (es : List IndexEntry) (i : ℕ) (z : Summary)
    → Within (ranges (add_entries es (i + 1) z)) (ranges z)
unfolding add_entries
add_entries-Within [] i z = Within-refl (ranges z)
add_entries-Within (e ∷ es) i z =
    Within-trans _ _ _ (add_entries-Within es (i + 1) (index_add_entry e (i + 1) z))
      (rw (entry_ranges e (i + 1) z) (extend-Within e i (ranges z)))

add_entries-Holds :
    (es : List IndexEntry) (i : ℕ) (z : Summary) → All (Holds (ranges (add_entries es i z))) es
unfolding add_entries
add_entries-Holds [] i z = tt
add_entries-Holds (e ∷ es) i z = (
  Holds-wider _ _ e (add_entries-Within es i (index_add_entry e i z))
      (rw (entry_ranges e i z) (extend-Holds e i (ranges z))),
  add_entries-Holds es (i + 1) (index_add_entry e i z),
)

add_entries_narrow :
    (b : Ranges) (es : List IndexEntry) (i : ℕ) (z : Summary)
    → All (Holds b) es
    → Within b (ranges z)
    → Within b (ranges (add_entries es i z))
unfolding add_entries
add_entries_narrow b [] i z h w = w
add_entries_narrow b (e ∷ es) i z (h, hs) w =
    add_entries_narrow b es (i + 1) (index_add_entry e i z) hs
      (rw (entry_ranges e i z) (extend_narrow b e i (ranges z) h w))

-- The time ranges in the record made for a chunk that is not empty hold the times of every entry,
-- in whatever order they come, and lie within every range that does.
pub summarize-Holds :
    (frame : SegmentFrameInfo) (e : IndexEntry) (es : List IndexEntry)
    → All (Holds (frame_ranges (summarize frame (e ∷ es)))) (e ∷ es)
      × ((b : Ranges) → All (Holds b) (e ∷ es) → Within b (frame_ranges (summarize frame (e ∷ es))))
unfolding summarize
summarize-Holds frame e es = (
  add_entries-Holds (e ∷ es) 0 empty_summary,
  λ b hs.
      unfold add_entries in
      add_entries_narrow b es 1 (index_add_entry e 0 empty_summary) hs.1
        (rw (entry_ranges e 0 empty_summary) (extend_first b e (ranges empty_summary) hs.0)),
)
