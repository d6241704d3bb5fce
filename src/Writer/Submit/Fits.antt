-- ===== src/Writer/Submit/Fits.antt =====
-- src/recorder.c: the writer after a call of `recorder_ensure_writer` that returned 0.
use recorder.Common.{ℕ, ◌≤◌, ◌≡◌, inl, inr, refl, ap, ◌∙◌, arith, Bool, true, false}
use recorder.Common.{
  not, ◌&&◌, Bool-cases, Option, none, some, Option-cases, List, [], length, take, take_short,
  get_elem?, set, get_elem?-set_self, ◌==◌, bytes_eq, bytes_eq_refl, Step, ◌⨟◌, seq-done, on_some,
  on_true, on_false, give_up,
}
use recorder.Segment.{boot_id_size}
use recorder.Config.{RecorderConfig, PriorityGroup}
use recorder.Writer.{Os, PriorityWriter, Recorder, Site, LogEntry, current_timezone_string}
use recorder.Writer.Close.{
  on_writer, writer_close_segment, closed_segment, close_index, final_position, sync_footer,
  put_footer,
}
use recorder.Writer.Flush.{writer_flush_chunk}
use recorder.Writer.Create.{
  with_dictionary, use_dictionary, put_header, open_index, create_file, create_encryptor,
  name_segment, or_else, header_of, drop_and_unlink, drop_file, drop_index,
}
use recorder.Writer.Open.{
  start_segment, adopt_header, first_position, publish, write_segment, create_segment,
}
use recorder.Writer.Flush.Stored.{with_stream-done}
use recorder.Writer.Submit.{too_early, other_boot}

module _ (os : Os) where
  -- The writer takes the entry: it is open, has seen the last clock jump, and the entry is of its
  -- boot and not older than its first entry by more than the tolerated adjustment.
  pub record Fits (clock_jump_seq : ℕ) (w : PriorityWriter os) (entry : LogEntry) : Type 0 where
    pub is_open : w.is_open ≡ true
    pub jump : w.clock_jump_seen_seq ≡ clock_jump_seq
    pub early : too_early os w entry ≡ false
    pub boot : other_boot os w entry ≡ false

  -- a step on a writer of the array
  pub record Ran (i : ℕ) (call : Step (Site os)) (r r' : Recorder os) : Type 0 where
    pub w : PriorityWriter os
    pub was : get_elem? r.writers i ≡ some w
    pub site : Site os
    pub run : call (record { writer = w; world = r.world }) ≡ (true, site)
    pub now : get_elem? r'.writers i ≡ some site.writer
    pub jump : r'.clock_jump_seq ≡ r.clock_jump_seq

  -- A segment was opened for the entry: the last step of the opening ran.
  pub record Started (config : RecorderConfig) (group : PriorityGroup) (jump : ℕ) (entry : LogEntry)
      (r : Bool × Site os) : Type 0 where
    pub dict : List ℕ
    pub last : Site os
    pub run : r ≡ start_segment os config group jump entry dict last
    pub boot : last.writer.boot_id ≡ take boot_id_size entry.boot_id

  first_position-boot :
      (s : Site os)
      → (first_position os s).0 ≡ true
      → (first_position os s).1.writer.boot_id ≡ s.writer.boot_id
  unfolding first_position drop_index drop_file
  first_position-boot s done =
      let (fp, opened, run) = with_stream-done os _ s done in
      let ran = rw run at done in
      rw run (elim (Option-cases (os.ftello fp)) [
        | inl lost ↦ let wrong = rw lost at ran in cc
        | inr (pos, known) ↦ rw known refl
      ])

  module _ (config : RecorderConfig) (group : PriorityGroup) (jump : ℕ) (dir : List ℕ)
      (entry : LogEntry) where
    write_segment-Started :
        (timezone dict : List ℕ) (s : Site os)
        → (write_segment os config group jump dir entry timezone dict s).0 ≡ true
        → Started config group jump entry
            (write_segment os config group jump dir entry timezone dict s)
    unfolding write_segment
    write_segment-Started timezone dict s done =
        let header = header_of os config entry s.writer timezone dict in
        let start = start_segment os config group jump entry dict in
        let rest4 = first_position os ⨟ start in
        let rest3 = adopt_header os header entry ⨟ rest4 in
        let rest2 = publish os dir ⨟ rest3 in
        let (d1, (r1, e1)) =
          seq-done (put_header os header dict) (open_index os header ⨟ rest2) s done in
        let s1 = (put_header os header dict s).1 in
        let (d2, (r2, e2)) = seq-done (open_index os header) rest2 s1 r1 in
        let s2 = (open_index os header s1).1 in
        let (d3, (r3, e3)) = seq-done (publish os dir) rest3 s2 r2 in
        let s3 = (publish os dir s2).1 in
        let (d4, (r4, e4)) = seq-done (adopt_header os header entry) rest4 s3 r3 in
        let s4 = (adopt_header os header entry s3).1 in
        let (d5, (r5, e5)) = seq-done (first_position os) start s4 r4 in
        record {
          dict = dict;
          last = (first_position os s4).1;
          run = e1 ∙ e2 ∙ e3 ∙ e4 ∙ e5;
          boot = first_position-boot s4 d5 ∙ (unfold adopt_header header_of in refl);
        }

    use_dictionary-Started :
        (buf : Option (List ℕ)) (next : List ℕ → Step (Site os)) (s : Site os)
        → ((dict : List ℕ) (s' : Site os)
            → (next dict s').0 ≡ true
            → Started config group jump entry (next dict s'))
        → (use_dictionary os buf next s).0 ≡ true
        → Started config group jump entry (use_dictionary os buf next s)
    unfolding use_dictionary drop_and_unlink drop_file
    use_dictionary-Started none next s h done = let wrong : false ≡ true = done in absurd cc
    use_dictionary-Started (some dict) next s h done = elim (Bool-cases (length dict == 0)) [
      | inl empty ↦ let wrong : false ≡ true = rw empty at done in absurd cc
      | inr full ↦ rw full (h dict s (rw full at done))
    ]

    with_dictionary-Started :
        (path : Option (List ℕ)) (next : List ℕ → Step (Site os)) (s : Site os)
        → ((dict : List ℕ) (s' : Site os)
            → (next dict s').0 ≡ true
            → Started config group jump entry (next dict s'))
        → (with_dictionary os path next s).0 ≡ true
        → Started config group jump entry (with_dictionary os path next s)
    unfolding with_dictionary
    with_dictionary-Started none next s h done = h [] s done
    with_dictionary-Started (some path) next s h done = use_dictionary-Started _ next _ h done

    pub create_segment-Started :
        (seq : ℕ) (s : Site os)
        → (create_segment os config group jump dir seq entry s).0 ≡ true
        → Started config group jump entry (create_segment os config group jump dir seq entry s)
    unfolding create_segment
    create_segment-Started seq s done =
        let last : Step (Site os) = λ s'.
          let (timezone, world) = current_timezone_string os s'.world in
          with_dictionary os group.static_dict_path
            (write_segment os config group jump dir entry timezone) (record s' { world = world }) in
        let encrypt =
          or_else os (create_encryptor os config.encryption_public_key) (drop_and_unlink os) in
        let (d1, (r1, e1)) =
          seq-done (name_segment os seq) (create_file os ⨟ (encrypt ⨟ last)) s done in
        let s1 = (name_segment os seq s).1 in
        let (d2, (r2, e2)) = seq-done (create_file os) (encrypt ⨟ last) s1 r1 in
        let s2 = (create_file os s1).1 in
        let (d3, (r3, e3)) = seq-done encrypt last s2 r2 in
        let s3 = (encrypt s2).1 in
        let timezone = (current_timezone_string os s3.world).0 in
        let found =
          with_dictionary-Started group.static_dict_path
            (write_segment os config group jump dir entry timezone)
            (record s3 { world = (current_timezone_string os s3.world).1 })
            (λ dict s'. write_segment-Started timezone dict s') r3 in
        record {
          dict = found.dict;
          last = found.last;
          run = e1 ∙ e2 ∙ e3 ∙ found.run;
          boot = found.boot;
        }

  -- what the opening of a segment comes to for the entry that it is opened for
  pub Started-Fits :
      (config : RecorderConfig) (group : PriorityGroup) (jump : ℕ) (entry : LogEntry)
      (r : Bool × Site os)
      → length entry.boot_id ≤ boot_id_size
      → Started config group jump entry r
      → Fits jump r.1.writer entry
  unfolding start_segment
  Started-Fits config group jump entry r short h = rw h.run record {
    is_open = refl;
    jump = refl;
    early = ground (arith);
    boot = same_boot h.last.writer.boot_id h.boot;
  }
    where
      and_never : (a b : Bool) → (a && (b && not true)) ≡ false
      and_never true true = refl
      and_never true false = refl
      and_never false b = refl

      same_boot :
          (b : List ℕ)
          → b ≡ take boot_id_size entry.boot_id
          → (not (length b == 0)
              && (not (length entry.boot_id == 0) && not (bytes_eq b entry.boot_id)))
            ≡ false
      same_boot b e =
          let whole : b ≡ entry.boot_id = e ∙ take_short boot_id_size entry.boot_id short in
          rw (whole, bytes_eq_refl entry.boot_id) (and_never _ _)

  pub on_writer-Ran :
      (i : ℕ) (call : Step (Site os)) (r : Recorder os)
      → (on_writer os i call r).0 ≡ true
      → Ran i call r (on_writer os i call r).1
  unfolding on_writer
  on_writer-Ran i call r done = elim (Option-cases (get_elem? r.writers i)) [
    | inl missing ↦ let wrong = rw (missing, on_writer) at done in cc
    | inr (w, was) ↦
        let start : Site os = record { writer = w; world = r.world } in
        let s = (call start).1 in
        let after : Bool × Recorder os =
          ((call start).0, record r { writers = set r.writers i s.writer; world = s.world }) in
        let run : on_writer os i call r ≡ after =
          on_some (get_elem? r.writers i) w (give_up r) _ was in
        let ran : (call start).0 ≡ true = rw run at done in
        rw run record {
          w = w;
          was = was;
          site = s;
          run = whole (call start) ran;
          now = get_elem?-set_self r.writers i s.writer w was;
          jump = refl;
        }
  ]
    where
      whole : (p : Bool × Site os) → p.0 ≡ true → ◌≡◌ {A = Bool × Site os} p (true, p.1)
      whole (b, s) e = ap (λ (x : Bool). let q : Bool × Site os = (x, s) in q) e

  abbrev stay : Site os → Bool × Site os
  stay s = (true, s)

  pub closed_after :
      (reason : ℕ) (s : Site os)
      → (writer_close_segment os reason s).0 ≡ true
      → (writer_close_segment os reason s).1.writer.is_open ≡ false
  unfolding writer_close_segment closed_segment
  closed_after reason s done = elim (Bool-cases s.writer.is_open) [
    | inr shut ↦ rw (on_false s.writer.is_open _ (stay s) shut) shut
    | inl is_on ↦
        let rest4 = close_index os ⨟ closed_segment os in
        let rest3 = final_position os ⨟ rest4 in
        let rest2 = sync_footer os ⨟ rest3 in
        let rest1 = put_footer os reason ⨟ rest2 in
        let run : writer_close_segment os reason s ≡ (writer_flush_chunk os ⨟ rest1) s =
          on_true s.writer.is_open ((writer_flush_chunk os ⨟ rest1) s) (stay s) is_on in
        let ran = rw run at done in
        let (d1, (r1, e1)) = seq-done (writer_flush_chunk os) rest1 s ran in
        let s1 = (writer_flush_chunk os s).1 in
        let (d2, (r2, e2)) = seq-done (put_footer os reason) rest2 s1 r1 in
        let s2 = (put_footer os reason s1).1 in
        let (d3, (r3, e3)) = seq-done (sync_footer os) rest3 s2 r2 in
        let s3 = (sync_footer os s2).1 in
        let (d4, (r4, e4)) = seq-done (final_position os) rest4 s3 r3 in
        let s4 = (final_position os s3).1 in
        let (d5, (r5, e5)) = seq-done (close_index os) (closed_segment os) s4 r4 in
        rw (run ∙ e1 ∙ e2 ∙ e3 ∙ e4 ∙ e5) refl
  ]
