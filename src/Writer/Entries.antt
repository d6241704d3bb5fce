-- ===== src/Writer/Entries.antt =====
-- src/recorder.c: `serialize_entry`, `serialize_compact_entry` and `writer_builder`.
use recorder.Common.{ℕ, Option, none, some, List, [], ◌∷◌, ◌++◌, ◌==◌, if◌then◌else◌}
use recorder.Writer.{Os, LogEntry, FullFields, CompactFields, PriorityWriter}

-- A number is added unless it is 0.
abbrev pub nonzero : ℕ → Option ℕ
nonzero n = if n == 0 then none else some n

module _ (os : Os) where
  -- `none` is the reference 0.
  unfoldable pub create_journal_string : Option (List ℕ) → os.Builder → Option os.Ref × os.Builder
  create_journal_string none b = (none, b)
  create_journal_string (some value) b = os.string_create value b

  unfoldable pub create_journal_bytes : List ℕ → os.Builder → Option os.Ref × os.Builder
  create_journal_bytes value b = os.uint8_vec_create value b

  -- one round of the loop over the extra fields
  unfoldable pub serialize_field : List ℕ × List ℕ → os.Builder → Option os.Ref × os.Builder
  serialize_field (name, value) b =
      let (name_ref, b1) = create_journal_string (some name) b in
      let (value_ref, b2) = create_journal_bytes value b1 in
      elim name_ref [
        | none ↦ (none, b2)
        | some n ↦ elim value_ref [ none ↦ (none, b2) | some v ↦ os.field_create n v b2 ]
      ]

  -- the loop; `none` once a round failed
  unfoldable pub serialize_fields :
      List (List ℕ × List ℕ) → List os.Ref → os.Builder → Option (List os.Ref) × os.Builder
  serialize_fields [] extra_refs b = (some extra_refs, b)
  serialize_fields (f ∷ fields) extra_refs b = elim (serialize_field f b).0 [
    | none ↦ (none, (serialize_field f b).1)
    | some r ↦ serialize_fields fields (extra_refs ++ (r ∷ [])) (serialize_field f b).1
  ]

  -- The outer `none` is a failure, the inner one an entry without extra fields.
  unfoldable pub serialize_extra :
      List (List ℕ × List ℕ) → os.Builder → Option (Option os.Ref) × os.Builder
  serialize_extra [] b = (some none, b)
  serialize_extra (f ∷ fields) b =
      let (refs, b1) = serialize_fields (f ∷ fields) [] b in
      elim refs [
        | none ↦ (none, b1)
        | some extra_refs ↦
            let (extra_vec, b2) = os.field_vec_create extra_refs b1 in
            elim extra_vec [ none ↦ (none, b2) | some v ↦ (some (some v), b2) ]
      ]

  unfoldable pub serialize_entry : os.Builder → LogEntry → Option os.Ref × os.Builder
  serialize_entry b0 entry =
      let (message_ref, b1) = create_journal_string entry.message b0 in
      let (message_id_ref, b2) = create_journal_string entry.message_id b1 in
      let (unit_ref, b3) = create_journal_string entry.unit b2 in
      let (hostname_ref, b4) = create_journal_string entry.hostname b3 in
      let (comm_ref, b5) = create_journal_string entry.comm b4 in
      let (exe_ref, b6) = create_journal_string entry.exe b5 in
      let (extra, b7) = serialize_extra entry.extra_fields b6 in
      elim extra [
        | none ↦ (none, b7)
        | some extra_vec ↦
            let fields : FullFields os.Ref = record {
              realtime_ts = entry.realtime_ts;
              monotonic_ts = entry.monotonic_ts;
              priority = entry.priority;
              message = message_ref;
              message_id = message_id_ref;
              unit = unit_ref;
              pid = nonzero entry.pid;
              uid = nonzero entry.uid;
              gid = nonzero entry.gid;
              hostname = hostname_ref;
              comm = comm_ref;
              exe = exe_ref;
              errno = nonzero entry.errno_value;
              monotonic_tie_order = nonzero entry.monotonic_tie_order;
              fields = extra_vec;
            } in
            os.full_entry_create fields b7
      ]

  unfoldable pub serialize_compact_entry : os.Builder → LogEntry → Option os.Ref × os.Builder
  serialize_compact_entry b0 entry =
      let (message_ref, b1) = create_journal_string entry.message b0 in
      let (unit_ref, b2) = create_journal_string entry.unit b1 in
      let fields : CompactFields os.Ref = record {
        realtime_ts = entry.realtime_ts;
        monotonic_ts = entry.monotonic_ts;
        priority = entry.priority;
        pid = nonzero entry.pid;
        message = message_ref;
        unit = unit_ref;
        monotonic_tie_order = nonzero entry.monotonic_tie_order;
      } in
      os.compact_entry_create fields b2

  -- the builder, a new one where it is not live
  unfoldable pub writer_builder : PriorityWriter os → os.Builder
  writer_builder w = elim w.builder [ none ↦ os.builder_init | some b ↦ b ]
