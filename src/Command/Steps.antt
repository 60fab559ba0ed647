-- ===== src/Command/Steps.antt =====
-- The command store of app/services/provider_budget_commands.py as a state machine: a step is one
-- successful call of a method, by whichever thread, since each runs under the lock.
pub mod Moves
pub mod Effects
pub mod Turns
pub mod Evolve
pub mod Updates
pub mod Invariant
pub mod Keys
pub mod Preserve
pub mod Replay
pub mod Reachable
