-- ===== src/Budget/Invariant.antt =====
-- What the table `budgets` must satisfy: ids are unique, rows are well formed, the periods of
-- active budgets with one owner do not meet, and no client budget is below what is allocated to
-- the accounts of the client in its period.
pub mod Defs
pub mod Rows
pub mod Totals
pub mod Puts
pub mod Admission
pub mod Moved
