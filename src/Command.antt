-- ===== src/Command.antt =====
-- The budget commands for the advertising provider (app/services/provider_budget_commands.py).
pub mod Types
pub mod Validate
pub mod Authorize
pub mod Policy
pub mod Store
pub mod Snapshots
pub mod Preview
pub mod Provider
pub mod Service
pub mod Steps
pub mod Sqlite
mod Fixtures
mod Examples
