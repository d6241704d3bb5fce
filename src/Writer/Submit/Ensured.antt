-- ===== src/Writer/Submit/Ensured.antt =====
-- src/recorder.c: `recorder_ensure_writer` where it returned 0.
use recorder.Common.{
  ℕ, ◌+◌, ◌%◌, ◌^◌, ◌≤◌, ◌≡◌, ◌⊎◌, inl, inr, refl, sym, ap, ◌∙◌, Bool, true, false,
}
use recorder.Common.{
  not, Bool-cases, some, Option-cases, List, length, get_elem?, ◌==◌, if◌then◌else◌, ◌⨟◌, seq-done,
  on_some, on_true, on_false, give_up, is_negative, ==→eq, subst,
}
use recorder.Segment.{boot_id_size}
use recorder.Config.{PriorityGroup}
use recorder.Paths.{build_segment_dir}
use recorder.Writer.{Os, PriorityWriter, Recorder, Site, World, LogEntry, persist_next_segment_seq}
use recorder.Writer.Close.{
  on_writer, writer_close_segment, enforce_retention, recorder_close_writer,
}
use recorder.Writer.Create.{outside}
use recorder.Writer.Open.{create_segment, take_number, writer_open_segment}
use recorder.Writer.Submit.{
  RotateDecision, reason_clock_backward, reason_clock_forward, writer_should_rotate, rotate_if_due,
  open_if_closed, group_of, ensure_group_writer, recorder_ensure_writer, too_early, other_boot,
  is_none, reason_number,
}
use recorder.Writer.Submit.Fits.{
  Fits, on_writer-Ran, closed_after, Started-Fits, create_segment-Started,
}

module _ (os : Os) where
  -- The writer `i` is there, and takes the entry.
  pub record Ready (i jump : ℕ) (entry : LogEntry) (r : Recorder os) : Type 0 where
    pub w : PriorityWriter os
    pub now : get_elem? r.writers i ≡ some w
    pub fits : Fits os jump w entry

  take_number-Ready :
      (i jump : ℕ) (group : PriorityGroup) (dir : List ℕ) (entry : LogEntry) (r : Recorder os)
      → r.clock_jump_seq ≡ jump
      → length entry.boot_id ≤ boot_id_size
      → (take_number os i group dir entry r).0 ≡ true
      → Ready i jump entry (take_number os i group dir entry r).1
  unfolding take_number
  take_number-Ready i jump group dir entry r seen short done =
      let seq = r.next_segment_seq in
      let next = (seq + 1) % 2 ^ 64 in
      let numbered : Recorder os = record r { next_segment_seq = next } in
      let ran = on_writer-Ran os i _ numbered done in
      let s1 : Site os = record { writer = record ran.w { segment_seq = seq }; world = r.world } in
      let persist = outside os (persist_next_segment_seq os next) in
      let create = create_segment os r.config group r.clock_jump_seq dir seq entry in
      let (d1, (r1, e1)) = seq-done persist create s1 (ap (λ p. p.0) ran.run) in
      let started =
        create_segment-Started os r.config group r.clock_jump_seq dir entry seq (persist s1).1 r1 in
      let fits =
        Started-Fits os r.config group r.clock_jump_seq entry (create (persist s1).1) short
          started in
      let same : ran.site ≡ (create (persist s1).1).1 = ap (λ p. p.1) (sym ran.run ∙ e1) in
      record {
        w = ran.site.writer;
        now = ran.now;
        fits = rw same (subst (λ k. Fits os k (create (persist s1).1).1.writer entry) seen fits);
      }

  open-Ready :
      (i jump : ℕ) (entry : LogEntry) (r : Recorder os)
      → r.clock_jump_seq ≡ jump
      → length entry.boot_id ≤ boot_id_size
      → (writer_open_segment os i entry r).0 ≡ true
      → Ready i jump entry (writer_open_segment os i entry r).1
  unfolding writer_open_segment
  open-Ready i jump entry r seen short done = elim (Option-cases (get_elem? r.config.groups i)) [
    | inl missing ↦ let wrong = rw (missing, writer_open_segment) at done in cc
    | inr (group, g) ↦ elim (Option-cases (get_elem? r.writers i)) [
      | inl missing ↦ let wrong = rw (g, missing, writer_open_segment) at done in cc
      | inr (w, at_i) ↦ elim (Option-cases (build_segment_dir os.disk.log_dir 256 w.group_name)) [
        | inl long ↦ let wrong = rw (g, at_i, long, writer_open_segment) at done in cc
        | inr (dir, built) ↦ elim (Bool-cases (os.mkdir_p dir r.world).0) [
          | inr failed ↦ let wrong = rw (g, at_i, built, failed, writer_open_segment) at done in cc
          | inl made ↦
              let r1 : Recorder os = record r { world = (os.mkdir_p dir r.world).1 } in
              let run : writer_open_segment os i entry r ≡ take_number os i group dir entry r1 =
                on_some (get_elem? r.config.groups i) group (give_up r) _ g
                ∙ on_some (get_elem? r.writers i) w (give_up r) _ at_i
                ∙ on_some (build_segment_dir os.disk.log_dir 256 w.group_name) dir (give_up r) _
                    built
                ∙ on_true (os.mkdir_p dir r.world).0 _ _ made in
              rw run (take_number-Ready i jump group dir entry r1 seen short (rw run at done))
        ]
      ]
    ]
  ]

  -- The tests in front of the two limits, where none of them found a reason.
  passed_tests :
      (a b c d : Bool) (stay jumped early boot rest : RotateDecision × World os)
      → is_none jumped.0.reason ≡ false
      → is_none early.0.reason ≡ false
      → is_none boot.0.reason ≡ false
      → is_none
          (if not a
            then stay
            else (if not b
                then jumped
                else (if c then early else (if d then boot else rest)))).0.reason
        ≡ true
      → (a ≡ false) ⊎ ((a ≡ true) × ((b ≡ true) × ((c ≡ false) × (d ≡ false))))
  passed_tests false b c d s j e o r hj he ho h = inl refl
  passed_tests true false c d s j e o r hj he ho h =
      let wrong : true ≡ false = sym h ∙ hj in absurd cc
  passed_tests true true true d s j e o r hj he ho h =
      let wrong : true ≡ false = sym h ∙ he in absurd cc
  passed_tests true true false true s j e o r hj he ho h =
      let wrong : true ≡ false = sym h ∙ ho in absurd cc
  passed_tests true true false false s j e o r hj he ho h = inr (refl, (refl, (refl, refl)))

  stays :
      (w : PriorityWriter os) (entry : LogEntry) (r : Recorder os)
      → is_none (writer_should_rotate os r w entry).0.reason ≡ true
      → (w.is_open ≡ false) ⊎ Fits os r.clock_jump_seq w entry
  unfolding writer_should_rotate
  stays w entry r none_found =
      elim (passed_tests w.is_open (w.clock_jump_seen_seq == r.clock_jump_seq)
        (too_early os w entry) (other_boot os w entry) _ _ _ _ _
        (some_jump (is_negative r.clock_jump_usec)) refl refl none_found) [
          | inl shut ↦ inl shut
          | inr (is_on, (seen, (late, same))) ↦ inr record {
            is_open = is_on;
            jump = ==→eq w.clock_jump_seen_seq r.clock_jump_seq seen;
            early = late;
            boot = same;
          }
        ]
    where
      some_jump :
          (back : Bool)
          → is_none (if back then reason_clock_backward else reason_clock_forward) ≡ false
      some_jump true = refl
      some_jump false = refl

  -- A rotation leaves the writer closed, or as it was because it takes the entry.
  record Rotated (i : ℕ) (entry : LogEntry) (r r' : Recorder os) : Type 0 where
    jump : r'.clock_jump_seq ≡ r.clock_jump_seq
    w : PriorityWriter os
    now : get_elem? r'.writers i ≡ some w
    either : (w.is_open ≡ false) ⊎ Fits os r.clock_jump_seq w entry

  rotate_if_due-Rotated :
      (i : ℕ) (w : PriorityWriter os) (entry : LogEntry) (r : Recorder os)
      → get_elem? r.writers i ≡ some w
      → (rotate_if_due os i w entry r).0 ≡ true
      → Rotated i entry r (rotate_if_due os i w entry r).1
  unfolding rotate_if_due recorder_close_writer enforce_retention
  rotate_if_due-Rotated i w entry r at_i done =
      let decision = (writer_should_rotate os r w entry).0 in
      let r' : Recorder os = record r { world = (writer_should_rotate os r w entry).1 } in
      let reason = reason_number decision.reason in
      let kept : Bool × Recorder os = (true, r') in
      elim (Bool-cases (is_none decision.reason)) [
        | inl stay ↦
            rw (on_true (is_none decision.reason) kept (recorder_close_writer os i reason r') stay)
              record { jump = refl; w = w; now = at_i; either = stays w entry r stay }
        | inr due ↦
            let run : rotate_if_due os i w entry r ≡ recorder_close_writer os i reason r' =
              on_false (is_none decision.reason) kept (recorder_close_writer os i reason r') due in
            let close = on_writer os i (writer_close_segment os reason) in
            let (d1, (r1, e1)) = seq-done close (enforce_retention os) r' (rw run at done) in
            let ran = on_writer-Ran os i (writer_close_segment os reason) r' d1 in
            let start : Site os = record { writer = ran.w; world = r'.world } in
            let shut : ran.site.writer.is_open ≡ false =
              ap (λ (p : Bool × Site os). p.1.writer.is_open) (sym ran.run)
              ∙ closed_after os reason start (ap (λ p. p.0) ran.run) in
            rw (run ∙ e1)
              record { jump = ran.jump; w = ran.site.writer; now = ran.now; either = inl shut }
      ]

  open_if_closed-Ready :
      (i jump : ℕ) (entry : LogEntry) (r : Recorder os) (w : PriorityWriter os)
      → get_elem? r.writers i ≡ some w
      → (w.is_open ≡ false) ⊎ Fits os jump w entry
      → r.clock_jump_seq ≡ jump
      → length entry.boot_id ≤ boot_id_size
      → (open_if_closed os i entry r).0 ≡ true
      → Ready i jump entry (open_if_closed os i entry r).1
  unfolding open_if_closed
  open_if_closed-Ready i jump entry r w at_i either seen short done =
      let kept : Bool × Recorder os = (true, r) in
      let found : open_if_closed os i entry r
          ≡ (if w.is_open then kept else writer_open_segment os i entry r) =
        on_some (get_elem? r.writers i) w (give_up r) _ at_i in
      elim either [
        | inl shut ↦
            let run : open_if_closed os i entry r ≡ writer_open_segment os i entry r =
              found ∙ on_false w.is_open kept (writer_open_segment os i entry r) shut in
            rw run (open-Ready i jump entry r seen short (rw run at done))
        | inr fits ↦
            rw (found ∙ on_true w.is_open kept (writer_open_segment os i entry r) fits.is_open)
              record { w = w; now = at_i; fits = fits }
      ]

  -- For an entry whose boot id fits its field, if `recorder_ensure_writer` returns 0, then the
  -- priority of the entry has a group, and the writer of the group is open, has seen the last
  -- clock jump, and takes the entry: the entry is not older than its first entry by more than
  -- 1000 microseconds, and of the same boot if both boots are known.
  pub recorder_ensure_writer-Ready :
      (entry : LogEntry) (r : Recorder os)
      → length entry.boot_id ≤ boot_id_size
      → (recorder_ensure_writer os entry r).0 ≡ true
      → (i : ℕ) × ((group_of os r.config entry ≡ some i)
          × Ready i r.clock_jump_seq entry (recorder_ensure_writer os entry r).1)
  unfolding recorder_ensure_writer ensure_group_writer
  recorder_ensure_writer-Ready entry r short done =
      elim (Option-cases (group_of os r.config entry)) [
        | inl nowhere ↦ let wrong = rw (nowhere, recorder_ensure_writer) at done in cc
        | inr (i, group) ↦ elim (Option-cases (get_elem? r.writers i)) [
          | inl missing ↦
              let wrong =
                rw (group, recorder_ensure_writer, missing, ensure_group_writer) at done in
              cc
          | inr (w, at_i) ↦
              let run : recorder_ensure_writer os entry r
                  ≡ (rotate_if_due os i w entry ⨟ open_if_closed os i entry) r =
                on_some (group_of os r.config entry) i (give_up r) _ group
                ∙ on_some (get_elem? r.writers i) w (give_up r) _ at_i in
              let (d1, (r1, e1)) =
                seq-done (rotate_if_due os i w entry) (open_if_closed os i entry) r
                  (rw run at done) in
              let rotated = rotate_if_due-Rotated i w entry r at_i d1 in
              (
                i,
                (
                  group,
                  rw (run ∙ e1) (
                      open_if_closed-Ready i r.clock_jump_seq entry _ rotated.w rotated.now
                        rotated.either rotated.jump short r1),
                ),
              )
        ]
      ]
