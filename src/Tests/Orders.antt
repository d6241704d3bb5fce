-- ===== src/Tests/Orders.antt =====
-- The orders of entries and the boot registry, applied.
use recorder.Common.{ℕ, ◌≡◌, refl, arith, some, List, [], ◌∷◌}
use recorder.Order.{recorded, compare_iterator_entries}
use recorder.Order.Stored.{IsOrder, compare_iterator_entries-IsOrder}
use recorder.Boots.{BootEntry, boot_find, boot_registry_seq}
use recorder.Boots.Stable.{Numbered, boot_registry_seq-stable}

compare_iterator_entries-IsOrder_example : IsOrder (compare_iterator_entries recorded)
compare_iterator_entries-IsOrder_example = compare_iterator_entries-IsOrder recorded

abbrev one_boot : List BootEntry
one_boot =
    record { id = 1 ∷ 2 ∷ []; seq = 0; first_realtime_ts = 0; last_clean_realtime_ts = 0 } ∷ []

boot_registry_seq-stable_example :
    Numbered (boot_registry_seq one_boot (3 ∷ [])).0 0
    × ((boot_find (boot_registry_seq one_boot (3 ∷ [])).0 (3 ∷ []) 0
          ≡ some (boot_registry_seq one_boot (3 ∷ [])).1)
        × ((other : List ℕ) (j : ℕ)
            → boot_find one_boot other 0 ≡ some j
            → boot_find (boot_registry_seq one_boot (3 ∷ [])).0 other 0 ≡ some j))
boot_registry_seq-stable_example =
    boot_registry_seq-stable one_boot (3 ∷ []) (omega arith) (refl, tt)
