-- ===== src/Prelude/Keccak.antt =====
-- Keccak-256 of the `tiny_keccak` crate, which is not part of the repository: what the code relies on.
use mathlib.Core.Path.{◌≡◌}
use mathlib.Core.List.{List}
use Prim.Native.Nat.{ℕ}
use key_mesh.Prelude.Lists.{length, All}
use key_mesh.Prelude.Bytes.{IsByte}

-- `update` with all parts in a row, then `finalize` into a 32-byte array.
pub record Keccak : Type 0 where
  pub hash : List ℕ → List ℕ
  pub length-hash : (bytes : List ℕ) → length (hash bytes) ≡ 32
  pub hash-IsByte : (bytes : List ℕ) → All IsByte (hash bytes)
