-- ===== src/TssProto/Shamir/Interpolation.antt =====
-- crates/keymesh-tss-proto/src/shamir.rs: two shares of a line interpolate to its value at zero.
use key_mesh.Prelude.{◌<◌, ◌≡◌, ◌≢◌, sym, ap, [], ◌∷◌, some}
use key_mesh.TssProto.Field.{Scalar, ◌⊕◌, ◌⊖◌, ◌⊗◌}
use key_mesh.TssProto.Field.Line.{at_zero, sub-nonzero}
use key_mesh.TssProto.Shamir.{
  ParticipantShare, lagrange_interpolate_at_zero, interpolate_from, basis,
}

module _ {F : Type 0} ⦃f : Scalar F⦄ where
  pub interpolate_pair :
      (s a : F) (p q : ParticipantShare F)
      → p.index < 256
      → q.index < 256
      → p.index ≢ q.index
      → p.secret_share ≡ s ⊕ a ⊗ f.from_u64 p.index
      → q.secret_share ≡ s ⊕ a ⊗ f.from_u64 q.index
      → lagrange_interpolate_at_zero (p ∷ q ∷ []) ≡ some s
  unfolding lagrange_interpolate_at_zero interpolate_from basis
  interpolate_pair s a p q hp hq distinct p_on q_on =
      let x = f.from_u64 p.index in
      let y = f.from_u64 q.index in
      let (ip, invert_p, unit_p) =
        f.invert-some (x ⊖ y) (sub-nonzero x y (λ e. distinct (f.from_u64_inj _ _ hp hq e))) in
      let (iq, invert_q, unit_q) =
        f.invert-some (y ⊖ x)
          (sub-nonzero y x (λ e. distinct (f.from_u64_inj _ _ hp hq (sym e)))) in
      simp
        (
          lagrange_interpolate_at_zero, interpolate_from, basis, f.one-mul, invert_p, invert_q,
          f.zero-add, p_on, q_on,
        )
        (ap some (at_zero s a x y ip iq unit_p unit_q))
