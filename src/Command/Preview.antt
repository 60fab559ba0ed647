-- ===== src/Command/Preview.antt =====
-- The signed previews of a budget change and their submission
-- (app/services/provider_budget_commands.py).
pub mod Base64
pub mod Decoding
pub mod Payloads
pub mod Signer
pub mod Opening
pub mod Verifies
pub mod RoundTrip
pub mod Values
pub mod Documents
pub mod IssuedFor
pub mod Service
pub mod Previews
pub mod Submits
mod Examples
