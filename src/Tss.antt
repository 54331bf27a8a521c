-- ===== src/Tss.antt =====
-- The crate crates/keymesh-tss: threshold signing, its sessions and its key lifecycle.
pub mod Errors
pub mod RotationStatus
pub mod Governance
pub mod Key
pub mod RotationStart
pub mod Lifecycle
pub mod Synedrion
pub mod Session
pub mod Envelope
pub mod Network
pub mod Transport
pub mod Interactive
pub mod Signing
pub mod Provider
pub mod Storage
pub mod Transcript
