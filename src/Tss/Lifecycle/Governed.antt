-- ===== src/Tss/Lifecycle/Governed.antt =====
-- A governed rotation from end to end: the calls that crates/keymesh-tss/src/governance.rs received, and
-- what `rotate_with_request` of crates/keymesh-tss/src/lifecycle.rs makes of them.
use key_mesh.Prelude.Keccak.{Keccak}
use key_mesh.Tss.Governance.Invariant
