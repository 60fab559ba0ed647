-- ===== src/Sync/Leases.antt =====
-- The leases of the stores of sync jobs (app/services/ad_account_sync.py).
pub mod Calls
pub mod Memory
pub mod Sqlite
pub mod Rows
pub mod Refines
pub mod Excludes
