-- ===== src/TssProto/Shamir.antt =====
-- crates/keymesh-tss-proto/src/shamir.rs: Lagrange interpolation at zero.
--
-- A call returns `none` where the `unwrap` of an inverse panics. A participant share is declared in
-- dkg.rs; a `usize` position is a number.
pub mod Interpolation
use key_mesh.Prelude.{ℕ, suc, List, [], ◌∷◌, Option, none, some, ◌==◌, if◌then◌else◌}
use key_mesh.TssProto.Field.{Scalar, ◌⊕◌, ◌⊖◌, ◌⊗◌}

pub record ParticipantShare (F : Type 0) : Type 0 where
  pub index : ℕ
  pub secret_share : F

module _ {F : Type 0} ⦃f : Scalar F⦄ where
  -- The inner loop from position `j` on: the numerator and the denominator of the basis of position `i`.
  unfoldable pub basis :
      List (ParticipantShare F) → (i j : ℕ) (xi numerator denominator : F) → F × F
  basis [] i j xi numerator denominator = (numerator, denominator)
  basis (other ∷ rest) i j xi numerator denominator =
      let xj = f.from_u64 other.index in
      let (numerator', denominator') : F × F =
        if i == j
        then (numerator, denominator)
        else (numerator ⊗ f.neg xj, denominator ⊗ (xi ⊖ xj)) in
      basis rest i (suc j) xi numerator' denominator'

  -- The outer loop from position `i` on.
  unfoldable pub interpolate_from :
      List (ParticipantShare F) → List (ParticipantShare F) → (i : ℕ) (result : F) → Option F
  unfolding basis
  interpolate_from shares [] i result = some result
  interpolate_from shares (share ∷ rest) i result =
      let (numerator, denominator) = basis shares i 0 (f.from_u64 share.index) f.one f.one in
      elim (f.invert denominator) [
        | none ↦ none
        | some inv ↦
            interpolate_from shares rest (suc i) (result ⊕ (numerator ⊗ inv) ⊗ share.secret_share)
      ]

  unfoldable pub lagrange_interpolate_at_zero : List (ParticipantShare F) → Option F
  unfolding interpolate_from
  lagrange_interpolate_at_zero shares = interpolate_from shares shares 0 f.zero
