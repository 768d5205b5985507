-- ===== src/Passref.antt =====
-- passref.py: handles in the arguments of a tool call are replaced by what they stand for.
pub mod Pattern
pub mod Config
pub mod Expand
pub mod Middleware
pub mod Denial
pub mod Secrecy
pub mod Budgets
pub mod Redeem
