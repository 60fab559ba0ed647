-- ===== src/Sync.antt =====
-- The synchronisation of the advertising accounts with their providers
-- (app/services/ad_account_sync.py).
pub mod Types
pub mod Leases
pub mod Schedule
pub mod Failures
pub mod ProviderRows
pub mod Run
pub mod Loop
mod Examples
