-- ===== src/Player.antt =====
-- src/player.c: the groups that the command line names, and the boots of a store. Memory is never
-- short.
pub mod Groups
pub mod BootList
