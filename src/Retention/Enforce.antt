-- ===== src/Retention/Enforce.antt =====
-- src/recorder.c: the limit of the whole store in `retention_enforce`.
use recorder.Common.{ℕ, ◌≡◌, true}
use recorder.Common.{List}
use recorder.Retention.{Disk, Retention}
use recorder.Retention.Files.{Files}

module _ (disk : Disk) where
  -- The disk lets every segment be removed.
  abbrev pub Removable : Type 0
  Removable = (path : List ℕ) (w : disk.World) → (disk.unlink path w).0 ≡ true
