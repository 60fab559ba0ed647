-- ===== src/Command/Service.antt =====
-- `ProviderBudgetCommandService` (app/services/provider_budget_commands.py). The two readings of the
-- clock are arguments; the hash and the adapter are parameters.
pub mod Attempt
pub mod Methods
pub mod Post
pub mod Stages
pub mod Replies
pub mod Sends
pub mod Verdicts
pub mod Finishing
pub mod Executes
pub mod Readings
pub mod Reconciles
