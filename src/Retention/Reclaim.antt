-- ===== src/Retention/Reclaim.antt =====
-- src/recorder.c: what `retention_reclaim_lower_priority` removes.
use recorder.Common.{ℕ, ◌≤◌, ◌≡◌, ◌⊎◌, Bool, true, false, not, ◌&&◌}
use recorder.Common.{List, [], ◌∷◌, All, replicate, leb, some}
use recorder.Retention.{
  RetainedFile, Disk, Retention, retention_remove_file, reclaim_loop,
  retention_reclaim_lower_priority, retention_sort, sum_groups,
}
use recorder.Retention.Files.{Files}

module _ (disk : Disk) (priority required : ℕ) where
  -- There is room now.
  abbrev pub Roomy : disk.World → Type 0
  Roomy w = (room : ℕ) × (disk.available w ≡ some room) × (required ≤ room)

  abbrev pub lesser_than : RetainedFile → Bool
  lesser_than f = not (leb f.min_priority priority)

  abbrev loop : List RetainedFile → Retention disk → Retention disk
  loop = reclaim_loop disk priority required

  -- the state after a removal
  abbrev without : RetainedFile → Retention disk → Retention disk
  without file z = retention_remove_file disk file (record z { total = 0 })

  abbrev pub start : List RetainedFile → disk.World → Retention disk
  start files world = record {
    total = 0;
    group_bytes = sum_groups (retention_sort files) (replicate 8 0);
    log = [];
    world = world;
  }

  -- One turn of the loop spares the segment, or removes it and then ends or goes on.
  abbrev Turn : RetainedFile → List RetainedFile → Retention disk → Type 0
  Turn file files z =
      ((lesser_than file ≡ false) × (loop (file ∷ files) z ≡ loop files z))
      ⊎ ((lesser_than file ≡ true)
          × ((Roomy (without file z).world × (loop (file ∷ files) z ≡ without file z))
              ⊎ (loop (file ∷ files) z ≡ loop files (without file z))))

  module _ (fs : Files disk) where
    abbrev there : List ℕ → Retention disk → Bool
    there q z = fs.present q z.world

    -- a less important segment that is there
    abbrev pub lesser_left : Retention disk → RetainedFile → Bool
    lesser_left z f = lesser_than f && there f.path z

    -- There is enough room, or no less important one of these segments is there.
    abbrev pub Settled : List RetainedFile → Retention disk → Type 0
    Settled files z = Roomy z.world ⊎ All (λ f. lesser_left z f ≡ false) files

    abbrev reclaimed : List RetainedFile → disk.World → Retention disk
    reclaimed = retention_reclaim_lower_priority disk priority required
