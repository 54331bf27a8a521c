-- ===== src/TssProto/Field.antt =====
-- `k256::Scalar`, which is not part of the repository: the operations that the prototype calls, and
-- what it relies on.
pub mod Line
use key_mesh.Prelude.{ℕ, ◌<◌, ◌≡◌, ◌≢◌, ◌↔◌, Bool, true, List, Option, none, some, ◌≤◌}
use key_mesh.Prelude.Bytes.{from_be_bytes}
use key_mesh.Tss.Interactive.{curve_order}

-- The field of the integers modulo the order of secp256k1. `from_u64` is `Scalar::from`; numbers below
-- 256, so all participant indices, are different scalars. `from_repr`
-- refuses what is not below the order.
pub record Scalar (F : Type 0) : Type 0 where
  pub zero : F
  pub one : F
  pub add : F → F → F
  pub mul : F → F → F
  pub neg : F → F
  pub sub : F → F → F
  pub from_u64 : ℕ → F
  pub is_zero : F → Bool
  pub invert : F → Option F
  pub to_bytes : F → List ℕ
  pub from_repr : List ℕ → Option F
  pub add_assoc : (a b c : F) → add (add a b) c ≡ add a (add b c)
  pub add_comm : (a b : F) → add a b ≡ add b a
  pub zero-add : (a : F) → add zero a ≡ a
  pub neg-add : (a : F) → add (neg a) a ≡ zero
  pub sub-add : (a b : F) → add (sub a b) b ≡ a
  pub mul_assoc : (a b c : F) → mul (mul a b) c ≡ mul a (mul b c)
  pub mul_comm : (a b : F) → mul a b ≡ mul b a
  pub one-mul : (a : F) → mul one a ≡ a
  pub mul-add : (a b c : F) → mul a (add b c) ≡ add (mul a b) (mul a c)
  pub from_u64_inj : (m n : ℕ) → m < 256 → n < 256 → from_u64 m ≡ from_u64 n → m ≡ n
  pub is_zero_iff : (a : F) → (is_zero a ≡ true) ↔ (a ≡ zero)
  pub from_repr-order :
      (bytes : List ℕ) → from_be_bytes curve_order ≤ from_be_bytes bytes → from_repr bytes ≡ none
  pub invert-some : (a : F) → a ≢ zero → (b : F) × (invert a ≡ some b) × (mul a b ≡ one)

module _ {F : Type 0} ⦃f : Scalar F⦄ where
  infixl 65 ◌⊕◌ ◌⊖◌
  infixl 70 ◌⊗◌
  abbrev pub ◌⊕◌ : F → F → F
  a ⊕ b = f.add a b

  abbrev pub ◌⊖◌ : F → F → F
  a ⊖ b = f.sub a b

  abbrev pub ◌⊗◌ : F → F → F
  a ⊗ b = f.mul a b
