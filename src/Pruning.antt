-- ===== src/Pruning.antt =====
-- tokenjuice_hermes/structured_pruning*.py: structured context pruning, one child for each file of
-- the source.
pub mod Types
pub mod Config
pub mod Labels
pub mod Parse
pub mod Groups
pub mod Selection
pub mod Rescue
pub mod Apply
pub mod Provider
pub mod Pressure
pub mod Context
pub mod Memo
