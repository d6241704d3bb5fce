-- ===== src/Retention.antt =====
-- src/recorder.c: retention of closed segments: `retention_sort`, `retention_remove_file`,
-- `retention_enforce` and `retention_reclaim_lower_priority`.
pub mod Sort
pub mod Files
pub mod Enforce
pub mod Reclaim
use recorder.Common.{
  ℕ, zero, suc, ◌+◌, ◌-◌, ◌%◌, ◌^◌, Bool, true, false, ◌&&◌, ◌||◌, not, Option, none, some,
}
use recorder.Paths.{build_index_path, build_segment_dir, path_max}
use recorder.Common.{
  take, List, [], ◌∷◌, ◌++◌, length, replicate, get_or, set, ltb, leb, ◌==◌, if◌then◌else◌,
}

-- A closed segment; `group_index` is none for the -1 of a segment without a group.
pub record RetainedFile : Type 0 where
  pub path : List ℕ
  pub dir_name : List ℕ
  pub min_priority : ℕ
  pub group_index : Option ℕ
  pub segment_seq : ℕ
  pub size : ℕ
  pub modified_at : ℕ

-- the limits of a priority group, 0 for none
pub record GroupLimits : Type 0 where
  pub max_bytes : ℕ
  pub max_age_sec : ℕ

abbrev pub no_limits : GroupLimits
no_limits = record { max_bytes = 0; max_age_sec = 0 }

abbrev pub max_priority_groups : ℕ
max_priority_groups = 8

-- `a` goes in front of `b`: the less important first, of one importance the older first.
abbrev pub before : RetainedFile → RetainedFile → Bool
before a b =
    ltb b.min_priority a.min_priority
    || ((a.min_priority == b.min_priority) && ltb a.segment_seq b.segment_seq)

-- the inner loop: `x` is `files[i]`, the list what stands behind it
unfoldable pub sort_inner : RetainedFile → List RetainedFile → RetainedFile × List RetainedFile
sort_inner x [] = (x, [])
sort_inner x (y ∷ ys) =
    let swapped = sort_inner y ys in
    let kept = sort_inner x ys in
    if before y x then (swapped.0, x ∷ swapped.1) else (kept.0, y ∷ kept.1)

-- the outer loop, for `n` places
unfoldable pub sort_outer : ℕ → List RetainedFile → List RetainedFile
sort_outer zero files = files
sort_outer (suc n) [] = []
sort_outer (suc n) (x ∷ xs) = let (first, rest) = sort_inner x xs in first ∷ sort_outer n rest

unfoldable pub retention_sort : List RetainedFile → List RetainedFile
retention_sort files = sort_outer (length files) files

-- the sizes of the groups' files, summed up in `uint64_t`
unfoldable pub sum_groups : List RetainedFile → List ℕ → List ℕ
sum_groups [] group_bytes = group_bytes
sum_groups (file ∷ files) group_bytes = elim file.group_index [
  | none ↦ sum_groups files group_bytes
  | some g ↦ sum_groups files (set group_bytes g ((get_or group_bytes g 0 + file.size) % 2 ^ 64))
]

-- `files[4096]`: the collection stops there. `listed` are the closed segments in the order of the
-- directories.
unfoldable pub collected : List RetainedFile → List RetainedFile
collected listed = take 4096 listed

-- The calls on the file system: `unlink`, which may fail, `fsync_dir_path`, whose result is not
-- looked at here, and the space left; and the directory of the store.
pub record Disk : Type 1 where
  pub World : Type 0
  pub log_dir : List ℕ
  pub unlink : List ℕ → World → Bool × World
  pub sync_dir : List ℕ → World → World
  pub available : World → Option ℕ

module _ (disk : Disk) where
  -- `log` holds the segments that the verbose log says were removed, the last in front.
  pub record Retention : Type 0 where
    pub total : ℕ
    pub group_bytes : List ℕ
    pub log : List RetainedFile
    pub world : disk.World

  -- `group_bytes[file->group_index] -= file->size`, if there is a group and that much
  unfoldable pub subtract_group : Option ℕ → ℕ → List ℕ → List ℕ
  subtract_group none size group_bytes = group_bytes
  subtract_group (some g) size group_bytes =
      if leb size (get_or group_bytes g 0)
      then set group_bytes g (get_or group_bytes g 0 - size)
      else group_bytes

  -- the path of the index; the buffer has 512 bytes
  abbrev pub index_path : RetainedFile → Option (List ℕ)
  index_path file = build_index_path disk.log_dir 512 file.dir_name file.segment_seq

  unfoldable pub unlink_index : RetainedFile → disk.World → disk.World
  unlink_index file world = elim (index_path file) [
    | none ↦ world
    | some path ↦ (disk.unlink path world).1
  ]

  unfoldable pub sync_segment_dir : RetainedFile → disk.World → disk.World
  sync_segment_dir file world = elim (build_segment_dir disk.log_dir path_max file.dir_name) [
    | none ↦ world
    | some dir ↦ disk.sync_dir dir world
  ]

  unfoldable pub retention_remove_file : RetainedFile → Retention → Retention
  retention_remove_file file z =
      let (removed, world) = disk.unlink file.path z.world in
      if removed
      then record {
        total = if ltb file.size z.total then z.total - file.size else 0;
        group_bytes = subtract_group file.group_index file.size z.group_bytes;
        log = file ∷ z.log;
        world = sync_segment_dir file (unlink_index file world);
      }
      else record z { world = world }

  abbrev pub limits_of : List GroupLimits → RetainedFile → GroupLimits
  limits_of groups file = elim file.group_index [
    | none ↦ no_limits
    | some g ↦ get_or groups g no_limits
  ]

  abbrev pub group_total : RetainedFile → List ℕ → ℕ
  group_total file group_bytes = elim file.group_index [
    | none ↦ 0
    | some g ↦ get_or group_bytes g 0
  ]

  -- why a segment has to go: all segments are too many bytes, or those of its group, or it is too old
  abbrev pub over_total : ℕ → Retention → Bool
  over_total log_max_bytes z = not (log_max_bytes == 0) && ltb log_max_bytes z.total

  abbrev pub over_group : List GroupLimits → RetainedFile → Retention → Bool
  over_group groups file z =
      not ((limits_of groups file).max_bytes == 0)
      && ltb (limits_of groups file).max_bytes (group_total file z.group_bytes)

  abbrev pub too_old : List GroupLimits → ℕ → RetainedFile → Bool
  too_old groups now file =
      not ((limits_of groups file).max_age_sec == 0)
      && (ltb file.modified_at now
          && leb (limits_of groups file).max_age_sec (now - file.modified_at))

  unfoldable pub enforce_file : ℕ → List GroupLimits → ℕ → RetainedFile → Retention → Retention
  enforce_file log_max_bytes groups now file z =
      if over_total log_max_bytes z || (over_group groups file z || too_old groups now file)
      then retention_remove_file file z
      else z

  unfoldable pub enforce_loop : ℕ → List GroupLimits → ℕ → List RetainedFile → Retention → Retention
  enforce_loop log_max_bytes groups now [] z = z
  enforce_loop log_max_bytes groups now (file ∷ files) z =
      enforce_loop log_max_bytes groups now files (enforce_file log_max_bytes groups now file z)

  -- `listed` are the closed segments, `total` the bytes of the store.
  unfoldable pub retention_enforce :
      ℕ → List GroupLimits → ℕ → List RetainedFile → ℕ → disk.World → Retention
  retention_enforce log_max_bytes groups now listed total world =
      let files = collected listed in
      enforce_loop log_max_bytes groups now (retention_sort files) record {
        total = total;
        group_bytes = sum_groups files (replicate max_priority_groups 0);
        log = [];
        world = world;
      }

  -- Every file that is less important is removed until there is room; what cannot be told goes on.
  unfoldable pub reclaim_loop : ℕ → ℕ → List RetainedFile → Retention → Retention
  reclaim_loop priority required [] z = z
  reclaim_loop priority required (file ∷ files) z =
      let z' = retention_remove_file file (record z { total = 0 }) in
      let skipped = reclaim_loop priority required files z in
      let more = reclaim_loop priority required files z' in
      if leb file.min_priority priority then skipped else elim (disk.available z'.world) [
        | none ↦ more
        | some room ↦ if leb required room then z' else more
      ]

  unfoldable pub retention_reclaim_lower_priority :
      ℕ → ℕ → List RetainedFile → disk.World → Retention
  retention_reclaim_lower_priority priority required listed world =
      let files = collected listed in
      let start : Retention = record {
        total = 0;
        group_bytes = sum_groups (retention_sort files) (replicate max_priority_groups 0);
        log = [];
        world = world;
      } in
      let run = reclaim_loop priority required (retention_sort files) start in
      let untouched = record start { group_bytes = replicate max_priority_groups 0 } in
      elim (disk.available world) [
        | none ↦ untouched
        | some room ↦ if leb required room then untouched else run
      ]
