-- ===== src/Modifiers/Ties.antt =====
-- src/recorder.c: the tie orders of entries that follow each other with one time stamp.
use recorder.Common.{ℕ, suc, ◌+◌, ◌<◌, ◌≤◌, ◌≡◌, ◌≢◌, refl, sym, ap, ◌∙◌, arith}
use recorder.Common.{Bool, true, false, ◌&&◌, List, [], ◌∷◌, ◌==◌, All}
use recorder.Common.{==_refl, ne→==_false, lt→ltb}
use recorder.Writer.{LogEntry}
use recorder.Modifiers.{TieState, recorder_assign_monotonic_tie_order}

-- the numbers that entries get, one after the other
abbrev pub tie_orders : TieState → List LogEntry → List ℕ
tie_orders r [] = []
tie_orders r (e ∷ es) =
    let (r', e') = recorder_assign_monotonic_tie_order r e in
    e'.monotonic_tie_order ∷ tie_orders r' es

-- consecutive numbers from `n` on, one for each of the entries
abbrev pub count_up : ℕ → List LogEntry → List ℕ
count_up n [] = []
count_up n (e ∷ es) = n ∷ count_up (suc n) es

-- an entry of the given boot and time stamp
abbrev pub SameTime : ℕ → ℕ → LogEntry → Type 0
SameTime boot_seq t e = (e.boot_seq ≡ boot_seq) × (e.monotonic_ts ≡ t)

abbrev pub size : List LogEntry → ℕ
size [] = 0
size (e ∷ es) = suc (size es)

abbrev tied : TieState → ℕ → ℕ → ℕ → TieState
tied r boot_seq t order = record {
  have_last = true;
  last_boot_seq = boot_seq;
  last_monotonic_ts = t;
  tie_order = order;
}

abbrev numbered : TieState → LogEntry → TieState × LogEntry
numbered r e = (r, e)

-- An entry of the last entry's boot and time gets the next number.
next_number :
    (r : TieState) (order : ℕ) (e : LogEntry)
    → e.monotonic_ts ≢ 0
    → order < 0xffff
    → recorder_assign_monotonic_tie_order (tied r e.boot_seq e.monotonic_ts order) e
      ≡ numbered
          (tied r e.boot_seq e.monotonic_ts (suc order))
          (record e { monotonic_tie_order = suc order })
unfolding recorder_assign_monotonic_tie_order
next_number r order e some_time room =
    rw
      (
        ne→==_false e.monotonic_ts 0 some_time,
        ==_refl e.boot_seq,
        ==_refl e.monotonic_ts,
        lt→ltb order 0xffff room,
        recorder_assign_monotonic_tie_order,
      )
      refl

run_continues :
    (r : TieState) (boot_seq t order : ℕ) (es : List LogEntry)
    → t ≢ 0
    → All (SameTime boot_seq t) es
    → order + size es ≤ 0xffff
    → tie_orders (tied r boot_seq t order) es ≡ count_up (suc order) es
run_continues r boot_seq t order [] some_time same room = refl
run_continues r boot_seq t order (e ∷ es) some_time ((b, m), same) room =
    let time : e.monotonic_ts ≢ 0 = λ z. some_time (sym m ∙ z) in
    let step = next_number r order e time (omega arith) in
    let later = run_continues r boot_seq t (suc order) es some_time same (omega arith) in
    let here = rw (sym b, sym m) at later in rw⁻¹ (b, m) (rw step (ap (λ ns. suc order ∷ ns) here))

-- The entry has the boot and the time stamp of the last one.
abbrev pub follows : TieState → LogEntry → Bool
follows r e =
    r.have_last && ((r.last_boot_seq == e.boot_seq) && (r.last_monotonic_ts == e.monotonic_ts))

-- A run of at most 65536 entries with one boot and one monotonic time stamp other than 0, of
-- which the first does not follow an entry of this boot and time, gets the tie orders 0, 1, 2 and
-- so on.
pub tie_orders-count_up :
    (r : TieState) (first : LogEntry) (es : List LogEntry)
    → first.monotonic_ts ≢ 0
    → follows r first ≡ false
    → All (SameTime first.boot_seq first.monotonic_ts) es
    → size es ≤ 0xffff
    → tie_orders r (first ∷ es) ≡ count_up 0 (first ∷ es)
unfolding recorder_assign_monotonic_tie_order
tie_orders-count_up r first es some_time fresh same room =
    let step : recorder_assign_monotonic_tie_order r first
        ≡ numbered (tied r first.boot_seq first.monotonic_ts 0)
            (record first { monotonic_tie_order = 0 }) =
      rw (ne→==_false first.monotonic_ts 0 some_time, fresh, recorder_assign_monotonic_tie_order)
        refl in
    rw step (
      ap (λ ns. 0 ∷ ns)
        (run_continues r first.boot_seq first.monotonic_ts 0 es some_time same
          (omega (arith, room))))
