-- ===== src/Budget.antt =====
-- Manual budgets: app/services/budgets.py, the SQLite store.
pub mod Money
pub mod Types
pub mod Table
pub mod Checks
pub mod Store
pub mod Transfer
pub mod Queries
pub mod Invariant
pub mod Keeps
pub mod Run
mod Examples
