-- ===== src/Command/Sqlite.antt =====
-- `SqliteProviderBudgetCommandStore` (app/db.py). Every method is one transaction that `BEGIN IMMEDIATE`
-- serialises, so it is one step on the tables, and one that raises has written nothing.
pub mod Tables
pub mod Commands
pub mod Locks
pub mod Keeps
pub mod Beside
pub mod Fence
pub mod Excludes
pub mod Recovery
pub mod Recovers
pub mod Returns
mod Examples
