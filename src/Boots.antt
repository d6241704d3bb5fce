-- ===== src/Boots.antt =====
-- src/recorder.c: `boot_registry_get` and `boot_registry_seq`. A pointer into the registry is an
-- index, and a boot id is a string of bytes without NUL.
pub mod Stable
use recorder.Common.{
  ℕ, zero, suc, ◌-◌, Option, none, some, List, [], ◌∷◌, ◌++◌, length, take, get_or, bytes_eq, ltb,
  if◌then◌else◌,
}

abbrev pub max_boots : ℕ
max_boots = 256

pub record BootEntry : Type 0 where
  pub id : List ℕ
  pub seq : ℕ
  pub first_realtime_ts : ℕ
  pub last_clean_realtime_ts : ℕ

-- the loop: `strncmp` over the 32 bytes of an id
unfoldable pub boot_find : List BootEntry → List ℕ → ℕ → Option ℕ
boot_find [] boot_id i = none
boot_find (b ∷ boots) boot_id i =
    let rest = boot_find boots boot_id (suc i) in
    if bytes_eq (take 32 b.id) (take 32 boot_id) then some i else rest

abbrev pub new_boot : List BootEntry → List ℕ → BootEntry
new_boot boots boot_id = record {
  id = take 32 boot_id;
  seq = length boots;
  first_realtime_ts = 0;
  last_clean_realtime_ts = 0;
}

-- A full registry answers with its last entry.
unfoldable pub boot_registry_get : List BootEntry → List ℕ → List BootEntry × ℕ
boot_registry_get boots boot_id = elim (boot_find boots boot_id 0) [
  | some i ↦ (boots, i)
  | none ↦
      if ltb (length boots) max_boots
      then (boots ++ (new_boot boots boot_id ∷ []), length boots)
      else (boots, length boots - 1)
]

unfoldable pub boot_registry_seq : List BootEntry → List ℕ → List BootEntry × ℕ
boot_registry_seq boots boot_id =
    let (boots', i) = boot_registry_get boots boot_id in
    (boots', (get_or boots' i (new_boot boots boot_id)).seq)
