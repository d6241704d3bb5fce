-- ===== src/Order.antt =====
-- src/librecorder.c: `compare_stored_entries` and `compare_iterator_entries`, the orders in which
-- the player library delivers entries.
pub mod Stored
use recorder.Common.{ℕ, Option, none, some, List, [], ◌∷◌, ltb, if◌then◌else◌}

-- the part of an entry that the orders look at; `group` is null where it is unknown
pub record EntryKey : Type 0 where
  pub realtime_ts : ℕ
  pub monotonic_ts : ℕ
  pub monotonic_tie_order : ℕ
  pub boot_seq : ℕ
  pub group : Option (List ℕ)
  pub segment_seq : ℕ
  pub frame_offset : ℕ
  pub frame_entry_index : ℕ

-- the sign of an `int`
pub data Sign : Type 0 where
  less same greater : Sign

-- `if (a < b) return -1; if (a > b) return 1;` and what follows
unfoldable pub compare_then : ℕ → ℕ → Sign → Sign
compare_then a b next = if ltb a b then less else (if ltb b a then greater else next)

-- `strcmp` of two strings without NUL, as bytes
unfoldable pub strcmp : List ℕ → List ℕ → Sign
strcmp [] [] = same
strcmp [] (y ∷ ys) = less
strcmp (x ∷ xs) [] = greater
strcmp (x ∷ xs) (y ∷ ys) = compare_then x y (strcmp xs ys)

-- `if (result != 0) return result;` and what follows
unfoldable pub or_then : Sign → Sign → Sign
or_then less next = less
or_then same next = next
or_then greater next = greater

-- `group ? group : "-"`
abbrev pub group_name : Option (List ℕ) → List ℕ
group_name none = b'-' ∷ []
group_name (some name) = name

-- where the entry is stored, by which both orders break ties
unfoldable pub compare_location : EntryKey → EntryKey → Sign
compare_location a b = or_then (strcmp (group_name a.group) (group_name b.group)) (
    compare_then a.segment_seq b.segment_seq (
      compare_then a.frame_offset b.frame_offset
        (compare_then a.frame_entry_index b.frame_entry_index same)))

unfoldable pub compare_stored_entries : EntryKey → EntryKey → Sign
compare_stored_entries a b =
    compare_then a.realtime_ts b.realtime_ts
      (compare_then a.boot_seq b.boot_seq (compare_location a b))

pub data PlayerOrder : Type 0 where
  recorded wallclock : PlayerOrder

unfoldable pub compare_iterator_entries : PlayerOrder → EntryKey → EntryKey → Sign
compare_iterator_entries wallclock a b = compare_stored_entries a b
compare_iterator_entries recorded a b = compare_then a.boot_seq b.boot_seq (
    compare_then a.monotonic_ts b.monotonic_ts
      (compare_then a.monotonic_tie_order b.monotonic_tie_order (compare_location a b)))
