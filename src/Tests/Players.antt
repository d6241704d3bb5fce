-- ===== src/Tests/Players.antt =====
-- Examples for src/player.c.
use recorder.Common.{◌≡◌, refl, arith, true, [], ◌∷◌, ◌++◌, some, codes}
use recorder.Player.Groups.{
  add_group_option, valid_group_name, group_character, group_characters, joined,
  add_group_option-joined,
}
use recorder.Player.BootList.{
  BootInfo, Distinct, add_boot, new_boot, strncmp_equal, add_boot-Distinct,
}
use recorder.Segment.{SegmentHeader}
use recorder.Tests.Fixtures.{plain_header, closing_footer}

add_group_example :
    add_group_option (codes "net" ∷ []) (some (joined (codes "kernel") (codes "low-9" ∷ [])))
    ≡ ((codes "net" ∷ []) ++ (codes "kernel" ∷ codes "low-9" ∷ []), true)
unfolding valid_group_name group_character group_characters
add_group_example =
    add_group_option-joined (codes "net" ∷ []) (codes "kernel") (codes "low-9" ∷ [])
      ((refl, omega arith), ((refl, omega arith), tt)) (omega arith)

abbrev seen_header : SegmentHeader
seen_header = record plain_header { boot_id = codes "0123456789abcdef0123456789abcdef" ++ (0 ∷ []) }

-- an older boot in front
abbrev older_boot : BootInfo
older_boot = record {
  boot_seq = 1;
  boot_id = codes "f123456789abcdef0123456789abcdef" ++ (0 ∷ []);
  first_realtime_ts = 10;
  last_realtime_ts = 20;
  first_segment_seq = 50;
}

add_boot_example :
    Distinct
      (add_boot (older_boot ∷ new_boot seen_header closing_footer ∷ []) seen_header closing_footer)
unfolding strncmp_equal
add_boot_example =
    add_boot-Distinct (older_boot ∷ new_boot seen_header closing_footer ∷ []) seen_header
      closing_footer ((refl, tt), (tt, tt)) (omega arith)
