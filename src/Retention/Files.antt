-- ===== src/Retention/Files.antt =====
-- src/recorder.c: which files `retention_remove_file` removes.
use recorder.Common.{◌≡◌, ◌≢◌, refl, ◌∙◌, inl, inr, Bool, true, false, Bool-cases, Option-cases}
use recorder.Common.{List, ℕ, some}
use recorder.Paths.{build_segment_dir, path_max}
use recorder.Retention.{
  RetainedFile, Disk, Retention, index_path, unlink_index, sync_segment_dir, retention_remove_file,
}

-- What `unlink` and `fsync` do to the files: `unlink` that returns 0 removes the file and no other,
-- and neither makes a file.
pub record Files (disk : Disk) : Type 0 where
  pub present : List ℕ → disk.World → Bool
  pub unlink_gone :
      (path : List ℕ) (w : disk.World)
      → (disk.unlink path w).0 ≡ true
      → present path (disk.unlink path w).1 ≡ false
  pub unlink_other :
      (path q : List ℕ) (w : disk.World) → q ≢ path → present q (disk.unlink path w).1 ≡ present q w
  pub unlink_stays :
      (path q : List ℕ) (w : disk.World)
      → present q w ≡ false
      → present q (disk.unlink path w).1 ≡ false
  pub sync_same : (dir q : List ℕ) (w : disk.World) → present q (disk.sync_dir dir w) ≡ present q w

-- The path is neither that of the segment nor that of its index.
abbrev pub Untouched : (disk : Disk) → List ℕ → RetainedFile → Type 0
Untouched disk q file =
    (q ≢ file.path) × ((path : List ℕ) → index_path disk file ≡ some path → q ≢ path)

module _ (disk : Disk) (fs : Files disk) where
  sync-same :
      (file : RetainedFile) (q : List ℕ) (w : disk.World)
      → fs.present q (sync_segment_dir disk file w) ≡ fs.present q w
  unfolding sync_segment_dir
  sync-same file q w = elim (Option-cases (build_segment_dir disk.log_dir path_max file.dir_name)) [
    | inl none ↦ rw (none, sync_segment_dir) refl
    | inr (dir, e) ↦ rw (e, sync_segment_dir) (fs.sync_same dir q w)
  ]

  index-stays :
      (file : RetainedFile) (q : List ℕ) (w : disk.World)
      → fs.present q w ≡ false
      → fs.present q (unlink_index disk file w) ≡ false
  unfolding unlink_index
  index-stays file q w away = elim (Option-cases (index_path disk file)) [
    | inl none ↦ rw (none, unlink_index) away
    | inr (path, e) ↦ rw (e, unlink_index) (fs.unlink_stays path q w away)
  ]

  index-other :
      (file : RetainedFile) (q : List ℕ) (w : disk.World)
      → Untouched disk q file
      → fs.present q (unlink_index disk file w) ≡ fs.present q w
  unfolding unlink_index
  index-other file q w (own, index) = elim (Option-cases (index_path disk file)) [
    | inl none ↦ rw (none, unlink_index) refl
    | inr (path, e) ↦ rw (e, unlink_index) (fs.unlink_other path q w (index path e))
  ]

  -- A file that is not there does not come back.
  pub remove-stays :
      (file : RetainedFile) (q : List ℕ) (z : Retention disk)
      → fs.present q z.world ≡ false
      → fs.present q (retention_remove_file disk file z).world ≡ false
  unfolding retention_remove_file
  remove-stays file q z away =
      let w = (disk.unlink file.path z.world).1 in
      let still = fs.unlink_stays file.path q z.world away in
      elim (Bool-cases (disk.unlink file.path z.world).0) [
        | inl done ↦
            rw done (sync-same file q (unlink_index disk file w) ∙ index-stays file q w still)
        | inr failed ↦ rw failed still
      ]

  -- Where `unlink` returns 0, the segment is gone.
  pub remove-gone :
      (file : RetainedFile) (z : Retention disk)
      → (disk.unlink file.path z.world).0 ≡ true
      → fs.present file.path (retention_remove_file disk file z).world ≡ false
  unfolding retention_remove_file
  remove-gone file z done =
      let w = (disk.unlink file.path z.world).1 in
      rw done (
        sync-same file file.path (unlink_index disk file w)
        ∙ index-stays file file.path w (fs.unlink_gone file.path z.world done))

  -- Every file but the segment and its index is as it was.
  pub remove-other :
      (file : RetainedFile) (q : List ℕ) (z : Retention disk)
      → Untouched disk q file
      → fs.present q (retention_remove_file disk file z).world ≡ fs.present q z.world
  unfolding retention_remove_file
  remove-other file q z apart =
      let w = (disk.unlink file.path z.world).1 in
      let same = fs.unlink_other file.path q z.world apart.0 in
      elim (Bool-cases (disk.unlink file.path z.world).0) [
        | inl done ↦
            rw done
              (sync-same file q (unlink_index disk file w) ∙ index-other file q w apart ∙ same)
        | inr failed ↦ rw failed same
      ]
