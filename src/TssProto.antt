-- ===== src/TssProto.antt =====
-- crates/keymesh-tss-proto: the threshold prototype, with its own key generation and signing.
pub mod Field
pub mod Shamir
pub mod Keygen
pub mod Signature
pub mod Transport
pub mod Transcript
