-- ===== src/Tests/Governed.antt =====
-- A governed rotation from end to end, crates/keymesh-tss/src/governance.rs and lifecycle.rs together.
use key_mesh.Prelude.{ℕ, ◌≡◌, refl, some, List, [], ◌∷◌}
use key_mesh.Prelude.Bytes.{bytes_eq}
use key_mesh.Prelude.Members.{contains}
use key_mesh.Tss.Governance.{TssRotationRequest, approve}
use key_mesh.Tss.Governance.Invariant
use key_mesh.Tss.RotationStatus.{quorum_reached, completed}
use key_mesh.Tss.Key.{KeyLifecycle}
use key_mesh.Tss.Lifecycle.{rotate_with_request}
use key_mesh.Tests.Parameters.{constant_hash, simulated}
use key_mesh.Tests.Governance.{opened, opened-IsSound, alice, bob}
use key_mesh.Tests.Keys.{key}

abbrev calls : List Invariant.Call
calls = Invariant.approves_by bob 2_100 ∷ Invariant.approves_by alice 2_000 ∷ []

-- The request after both approved, the key and the request after the rotation.
abbrev pub decided : TssRotationRequest
decided = record opened {
  approvals = alice ∷ bob ∷ [];
  status = quorum_reached;
  executable_at = some 5_700;
}

abbrev moved_request : TssRotationRequest
moved_request = record decided { status = completed }

abbrev moved_key : KeyLifecycle ℕ ℕ
moved_key = (rotate_with_request constant_hash simulated 7 key decided 5_700).1

calls_decide : Invariant.run opened calls ≡ decided
unfolding Invariant.run Invariant.step approve contains bytes_eq
calls_decide = refl

pub decided-IsSound : Invariant.IsSound decided
decided-IsSound = rw calls_decide at (Invariant.requests-IsSound opened calls opened-IsSound)
