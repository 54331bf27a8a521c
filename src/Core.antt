-- ===== src/Core.antt =====
-- The crate crates/keymesh-core: one child for each of its modules.
pub mod Errors
pub mod Serialization
pub mod Transaction
pub mod Recovery
pub mod Policy
pub mod Crypto
pub mod Signing
