-- ===== src/Budget/Keeps.antt =====
-- Every method keeps the invariant of the table, and a failed one changes nothing.
pub mod Writes
pub mod Settles
pub mod Create
pub mod Complete
pub mod SameBusiness
pub mod Merge
pub mod Refusals
pub mod Patch
pub mod Rounded
pub mod Source
pub mod Amounts
pub mod Debit
pub mod Credit
pub mod Transfer
pub mod Effective
pub mod Listed
