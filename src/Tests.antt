-- ===== src/Tests.antt =====
-- Runs on concrete files, and the instances of the parameters that they use.
pub mod Fixtures
pub mod SegmentFiles
pub mod IndexFiles
pub mod Retained
pub mod Orders
pub mod PathReads
pub mod Writers
pub mod Configs
pub mod Modifying
pub mod Players
