-- ===== src/Writer/Submit/Counted.antt =====
-- src/recorder.c: the numbers that `recorder_submit_entry` keeps of a segment's entries, and the
-- footer that `writer_close_segment` makes of them.
use recorder.Common.{
  ℕ, ◌+◌, ◌≤◌, ◌<◌, ◌≡◌, ◌⊎◌, inl, inr, refl, sym, ap, ◌∙◌, arith, Bool, true, false,
}
use recorder.Common.{
  ◌||◌, Bool-cases, List, [], ◌∷◌, length, All, subst, ltb, le→ltb_false, if◌then◌else◌, ◌%◌, ◌^◌,
}
use recorder.Segment.{has_flag}
use recorder.Writer.{Os, PriorityWriter, LogEntry}
use recorder.Writer.Close.{footer_of, footer_flag_realtime_nonmonotonic}
use recorder.Writer.Submit.{note_entry}

-- one of the entries is older than the one in front of it, the first than `previous`
abbrev pub descends : ℕ → List LogEntry → Bool
descends previous [] = false
descends previous (e ∷ es) = ltb e.realtime_ts previous || descends e.realtime_ts es

-- the largest time stamp
abbrev pub latest : ℕ → List LogEntry → ℕ
latest m [] = m
latest m (e ∷ es) = latest (if ltb m e.realtime_ts then e.realtime_ts else m) es

-- the last monotonic time stamp
abbrev pub last_monotonic : ℕ → List LogEntry → ℕ
last_monotonic t [] = t
last_monotonic t (e ∷ es) = last_monotonic e.monotonic_ts es

-- One of the entries has the time stamp `m`.
abbrev pub Occurs : ℕ → List LogEntry → Type 0
Occurs m [] = ⊥
Occurs m (e ∷ es) = (m ≡ e.realtime_ts) ⊎ Occurs m es

latest-Occurs : (m : ℕ) (es : List LogEntry) → (latest m es ≡ m) ⊎ Occurs (latest m es) es
latest-Occurs m [] = inl refl
latest-Occurs m (e ∷ es) =
    elim (latest-Occurs (if ltb m e.realtime_ts then e.realtime_ts else m) es) [
      | inr later ↦ inr (inr later)
      | inl none_later ↦ elim (Bool-cases (ltb m e.realtime_ts)) [
        | inl larger ↦ inr (inl (none_later ∙ rw larger refl))
        | inr smaller ↦ inl (none_later ∙ rw smaller refl)
      ]
    ]

latest-bound :
    (m : ℕ) (es : List LogEntry)
    → (m ≤ latest m es) × All (λ (e : LogEntry). e.realtime_ts ≤ latest m es) es
latest-bound m [] = (omega arith, tt)
latest-bound m (e ∷ es) =
    let m' : ℕ = if ltb m e.realtime_ts then e.realtime_ts else m in
    let (above, all) = latest-bound m' es in
    let grows : m ≤ m' = ground arith in
    let covers : e.realtime_ts ≤ m' = ground arith in (omega arith, (omega arith, all))

module _ (os : Os) where
  abbrev pub note_all : List LogEntry → PriorityWriter os → PriorityWriter os
  note_all [] w = w
  note_all (e ∷ es) w = note_all es (note_entry os e w)

  note_all-numbers :
      (es : List LogEntry) (w : PriorityWriter os)
      → w.entry_count + length es < 2 ^ 64
      → ((note_all es w).entry_count ≡ w.entry_count + length es)
        × (((note_all es w).max_realtime_ts ≡ latest w.max_realtime_ts es)
            × (((note_all es w).last_monotonic_ts ≡ last_monotonic w.last_monotonic_ts es)
                × ((note_all es w).realtime_nonmonotonic
                    ≡ (descends w.previous_realtime_ts es || w.realtime_nonmonotonic))))
  unfolding note_entry
  note_all-numbers [] w small = (omega arith, (refl, (refl, refl)))
  note_all-numbers (e ∷ es) w small =
      let step : (w.entry_count + 1) % 2 ^ 64 ≡ w.entry_count + 1 = omega arith in
      let (count, (max, (mono, flag))) =
        note_all-numbers es (note_entry os e w) (omega (arith, step)) in
      (
        omega (arith, count, step),
        (
          max,
          (
            mono,
            flag
                ∙ or_move (ltb e.realtime_ts w.previous_realtime_ts) (descends e.realtime_ts es)
                    w.realtime_nonmonotonic,
          ),
        ),
      )
    where
      or_move : (a b c : Bool) → (b || (a || c)) ≡ ((a || b) || c)
      or_move true b c = ground arith
      or_move false b c = ground arith

  -- as `writer_open_segment` leaves a writer for the entry that the segment is opened for
  pub record Fresh (first : LogEntry) (w : PriorityWriter os) : Type 0 where
    pub entry_count : w.entry_count ≡ 0
    pub previous : w.previous_realtime_ts ≡ first.realtime_ts
    pub max : w.max_realtime_ts ≡ first.realtime_ts
    pub monotonic : w.realtime_nonmonotonic ≡ false

  -- A writer that was just opened for an entry and has noted it and any entries after it, fewer
  -- than 2^64 in all, makes a footer that has their number, the largest of their time stamps, and
  -- the flag for a realtime clock that went back exactly if some entry is older than the one in
  -- front of it.
  pub footer_of-note_all :
      (first : LogEntry) (es : List LogEntry) (w : PriorityWriter os) (reason : ℕ)
      → Fresh first w
      → length (first ∷ es) < 2 ^ 64
      → ((footer_of os (note_all (first ∷ es) w) reason).entry_count ≡ length (first ∷ es))
        × (All
              (λ (e : LogEntry).
                e.realtime_ts ≤ (footer_of os (note_all (first ∷ es) w) reason).last_realtime_ts)
              (first ∷ es)
            × (Occurs (footer_of os (note_all (first ∷ es) w) reason).last_realtime_ts (first ∷ es)
                × (has_flag
                      (footer_of os (note_all (first ∷ es) w) reason).footer_flags
                      footer_flag_realtime_nonmonotonic
                    ≡ descends first.realtime_ts es)))
  unfolding footer_of
  footer_of-note_all first es w reason fresh small =
      let all = first ∷ es in
      let (count, (max, (mono, flag))) =
        note_all-numbers all w (omega (arith, fresh.entry_count)) in
      let largest : (note_all all w).max_realtime_ts ≡ latest first.realtime_ts all =
        max ∙ ap (λ m. latest m all) fresh.max in
      let (above, bound) = latest-bound first.realtime_ts all in
      (
        omega (arith, count, fresh.entry_count),
        (
          subst (λ m. All (λ (e : LogEntry). e.realtime_ts ≤ m) all) (sym largest) bound,
          (
            subst (λ m. Occurs m all) (sym largest) (occurs first es),
            flag_value (note_all all w).realtime_nonmonotonic
                ∙ flag
                ∙ same_start w.previous_realtime_ts w.realtime_nonmonotonic fresh.previous
                    fresh.monotonic,
          ),
        ),
      )
    where
      flag_value :
          (b : Bool)
          → has_flag
              (if b then footer_flag_realtime_nonmonotonic else 0)
              footer_flag_realtime_nonmonotonic
            ≡ b
      flag_value true = refl
      flag_value false = refl

      occurs :
          (e : LogEntry) (later : List LogEntry)
          → Occurs (latest e.realtime_ts (e ∷ later)) (e ∷ later)
      occurs e later = elim (latest-Occurs e.realtime_ts (e ∷ later)) [
        | inl first_one ↦ inl first_one
        | inr one ↦ one
      ]

      or_false : (b : Bool) → (b || false) ≡ b
      or_false true = refl
      or_false false = refl

      same_start :
          (p : ℕ) (flag : Bool)
          → p ≡ first.realtime_ts
          → flag ≡ false
          → (descends p (first ∷ es) || flag) ≡ descends first.realtime_ts es
      same_start p flag e f =
          let level : ltb first.realtime_ts p ≡ false =
            le→ltb_false first.realtime_ts p (omega (arith, e)) in
          rw (f, level) (or_false (descends first.realtime_ts es))
