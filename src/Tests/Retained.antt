-- ===== src/Tests/Retained.antt =====
-- Retention on a disk of two segments.
use recorder.Common.{codes, ℕ, ◌+◌, ◌≡◌, refl, Bool, true, some, List, [], ◌∷◌}
use recorder.Retention.{RetainedFile, GroupLimits, Disk, retention_sort}
use recorder.Retention.Sort.{Sorted, count_where, retention_sort-Sorted}
use recorder.Common.{
  bytes_eq, bytes_eq_refl, bytes_eq→eq, inl, inr, if◌then◌else◌, false, Bool-cases,
}
use recorder.Retention.Files.{Files}

abbrev urgent : RetainedFile
urgent = record {
  path = codes "/log/u/5.seg";
  dir_name = b'u' ∷ [];
  min_priority = 0;
  group_index = some 0;
  segment_seq = 5;
  size = 10;
  modified_at = 7;
}

abbrev chatty : RetainedFile
chatty = record urgent {
  path = codes "/log/c/9.seg";
  dir_name = b'c' ∷ [];
  min_priority = 5;
  group_index = some 1;
  segment_seq = 9;
  size = 30;
}

-- The world is the room on the disk; each removal makes 25 bytes.
abbrev pub toy_disk : Disk
toy_disk = record {
  World = ℕ;
  unlink = λ path w. (true, w + 25);
  log_dir = codes "/log";
  sync_dir = λ dir w. w;
  available = λ w. some w;
}

abbrev two_groups : List GroupLimits
two_groups =
    record { max_bytes = 0; max_age_sec = 0 } ∷ record { max_bytes = 20; max_age_sec = 0 } ∷ []

retention_sort-Sorted_example :
    Sorted (retention_sort (urgent ∷ chatty ∷ []))
    × ((p : RetainedFile → Bool)
        → count_where p (retention_sort (urgent ∷ chatty ∷ []))
          ≡ count_where p (urgent ∷ chatty ∷ []))
retention_sort-Sorted_example = retention_sort-Sorted (urgent ∷ chatty ∷ [])

-- The world says which paths have a file, and how much room there is.
abbrev list_disk : Disk
list_disk = record {
  World = (List ℕ → Bool) × ℕ;
  log_dir = codes "/log";
  unlink = λ path w. (true, ((λ q. if bytes_eq q path then false else w.0 q), w.1 + 25));
  sync_dir = λ dir w. w;
  available = λ w. some w.1;
}

abbrev list_files : Files list_disk
list_files = record {
  present = λ q w. w.0 q;
  unlink_gone = λ path w e. rw (bytes_eq_refl path) refl;
  unlink_other = λ path q w other. elim (Bool-cases (bytes_eq q path)) [
    | inl same ↦ absurd (other (bytes_eq→eq q path same))
    | inr apart ↦ rw apart refl
  ];
  unlink_stays = λ path q w away. elim (Bool-cases (bytes_eq q path)) [
    | inl same ↦ rw same refl
    | inr apart ↦ rw apart away
  ];
  sync_same = λ dir q w. refl;
}

abbrev both : List RetainedFile
both = urgent ∷ chatty ∷ []

-- every file is there, and no room
abbrev full : list_disk.World
full = ((λ q. true), 0)
