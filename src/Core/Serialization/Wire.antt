-- ===== src/Core/Serialization/Wire.antt =====
-- The wire states of crates/keymesh-core/src/serialization/mod.rs.
use key_mesh.Prelude.{ℕ, ◌≡◌, ◌↔◌, arith}
use key_mesh.Prelude.Outcome.{ok}
use key_mesh.Core.Serialization.{WireRecoveryState, discriminant, try_from}

-- A byte is read as a state exactly when it is that state's discriminant.
pub try_from_iff : (v : ℕ) (s : WireRecoveryState) → (try_from v ≡ ok s) ↔ (v ≡ discriminant s)
unfolding try_from discriminant
try_from_iff v s = (λ h. ground arith, λ h. ground arith)
