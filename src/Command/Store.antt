-- ===== src/Command/Store.antt =====
-- `InMemoryBudgetCommandStore` (app/services/provider_budget_commands.py). Every method runs under
-- one lock, so it is one step on the state. A method that raises has written nothing. The id that
-- `uuid4` draws is an argument.
pub mod Key
pub mod State
pub mod Submit
pub mod Transitions
unfoldable pub use Key.*
unfoldable pub use State.*
unfoldable pub use Submit.*
unfoldable pub use Transitions.*
