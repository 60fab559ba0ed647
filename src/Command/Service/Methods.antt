-- ===== src/Command/Service/Methods.antt =====
-- `execute` and `reconcile` of `ProviderBudgetCommandService`
-- (app/services/provider_budget_commands.py).
pub mod Execute
pub mod Reconcile
unfoldable pub use Execute.*
unfoldable pub use Reconcile.*
