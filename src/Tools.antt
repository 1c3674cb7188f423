-- ===== src/Tools.antt =====
-- tools: the programs around the daemon.
pub mod Ffs
