-- ===== src/Store.antt =====
-- tokenjuice_hermes/rescue_store.py and the rescue_sqlite*.py modules: the store of rescued results. Its
-- SQLite tables and its files are one state; a transaction is one function on it.
pub mod Handles
pub mod Tables
pub mod Ownership
pub mod Maintenance
pub mod Blobs
pub mod Rows
pub mod Authorization
pub mod Sweep
pub mod Legacy
pub mod Migrated
pub mod Completed
pub mod LegacySweep
pub mod Redeem
pub mod Fetch
