-- ===== src/Compaction.antt =====
-- tokenjuice_hermes/compaction.py and compaction_options.py: the compaction of tool results.
pub mod Options
pub mod Terminal
pub mod Lines
pub mod Fields
pub mod Transform
pub mod Stored
