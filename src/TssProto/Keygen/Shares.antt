-- ===== src/TssProto/Keygen/Shares.antt =====
-- crates/keymesh-tss-proto/src/dkg.rs: every two shares of a key interpolate to its secret.
use key_mesh.Prelude.{
  ℕ, zero, suc, ◌+◌, ◌%◌, ◌<◌, ◌≡◌, ◌≢◌, refl, sym, ap, ◌∙◌, List, [], ◌∷◌, some, get_elem?, take,
  inl, inr, arith, Bool-cases, Option-cases,
}
use native.Mathlib.Nat.{add-zero, add-suc, suc-add}
use key_mesh.Prelude.Keccak.{Keccak}
use key_mesh.TssProto.Field.{Scalar, ◌⊕◌, ◌⊗◌}
use key_mesh.TssProto.Field.Line.{add_lines, mul-zero_left}
use key_mesh.TssProto.Shamir.{ParticipantShare, lagrange_interpolate_at_zero}
use key_mesh.TssProto.Shamir.Interpolation.{interpolate_pair}
use key_mesh.TssProto.Keygen.{
  KeygenLibrary, ThresholdKeyMaterial, contributions, secret_from, share_from, shares_from,
  material, is_supported, distributed_keygen_seeded, checked, distributed_keygen,
}

module _ {F : Type 0} ⦃f : Scalar F⦄ where
  -- The coefficient of the sum of the polynomials.
  slope_from : F → List (F × F) → F
  slope_from d [] = d
  slope_from d ((a, b) ∷ more) = slope_from (d ⊕ b) more

  share_from-line :
      (c d : F) (drawn : List (F × F)) (j : F)
      → share_from (c ⊕ d ⊗ j) drawn j ≡ secret_from c drawn ⊕ slope_from d drawn ⊗ j
  unfolding share_from secret_from slope_from
  share_from-line c d [] j = refl
  share_from-line c d ((a, b) ∷ more) j =
      ap (λ z. share_from z more j) (add_lines c d a b j) ∙ share_from-line (c ⊕ a) (d ⊕ b) more j

  -- A share is on the line of the secret.
  share-line :
      (drawn : List (F × F)) (j : F)
      → share_from f.zero drawn j ≡ secret_from f.zero drawn ⊕ slope_from f.zero drawn ⊗ j
  share-line drawn j =
      ap (λ z. share_from z drawn j)
        (sym (ap (λ z. f.zero ⊕ z) (mul-zero_left j) ∙ f.zero-add f.zero))
      ∙ share_from-line f.zero f.zero drawn j

  shares_from-entry :
      (drawn : List (F × F)) (j count i : ℕ) (p : ParticipantShare F)
      → get_elem? (shares_from drawn j count) i ≡ some p
      → (p.index ≡ (j + i) % 256)
        × (p.secret_share ≡ share_from f.zero drawn (f.from_u64 (j + i)))
        × (i < count)
  unfolding shares_from
  shares_from-entry drawn j zero i p h = cc
  shares_from-entry drawn j (suc count) zero p h = rw add-zero (ground arith)
  shares_from-entry drawn j (suc count) (suc i) p h =
      let (index, share, bound) = shares_from-entry drawn (suc j) count i p h in
      rw add-suc (rw suc-add at index, rw suc-add at share, omega (arith, bound))

  -- Two entries among at most three shares are on one line, at different places.
  pub interpolate-shares_from :
      (drawn : List (F × F)) (count i j : ℕ) (p q : ParticipantShare F)
      → count < 255
      → get_elem? (shares_from drawn 1 count) i ≡ some p
      → get_elem? (shares_from drawn 1 count) j ≡ some q
      → i ≢ j
      → lagrange_interpolate_at_zero (p ∷ q ∷ []) ≡ some (secret_from f.zero drawn)
  interpolate-shares_from drawn count i j p q few at_i at_j distinct =
      let (index_p, share_p, bound_p) = shares_from-entry drawn 1 count i p at_i in
      let (index_q, share_q, bound_q) = shares_from-entry drawn 1 count j q at_j in
      let place_p : 1 + i ≡ p.index = omega arith in
      let place_q : 1 + j ≡ q.index = omega arith in
      interpolate_pair (secret_from f.zero drawn) (slope_from f.zero drawn) p q (omega arith)
        (omega arith) (λ e. distinct (omega arith))
        (share_p ∙ (ap (λ k. share_from f.zero drawn (f.from_u64 k)) place_p ∙ share-line drawn _))
        (share_q ∙ (ap (λ k. share_from f.zero drawn (f.from_u64 k)) place_q ∙ share-line drawn _))

  -- The two shares that `distributed_keygen` checks.
  first_two :
      (drawn : List (F × F))
      → lagrange_interpolate_at_zero (take 2 (shares_from drawn 1 3))
        ≡ some (secret_from f.zero drawn)
  unfolding shares_from
  first_two drawn =
      interpolate-shares_from drawn 3 0 1 _ _ (omega arith) refl refl (λ e. omega arith)

module _ {F K Rng : Type 0} ⦃f : Scalar F⦄ (keccak : Keccak) (library : KeygenLibrary F K Rng) where
  -- What `distributed_keygen_seeded` returns.
  seeded-parts :
      (n t : ℕ) (rng : Rng) (mat : ThresholdKeyMaterial F K)
      → distributed_keygen_seeded keccak library n t rng ≡ some mat
      → (n ≡ 3)
        × (mat.threshold ≡ 2)
        × (mat.shares ≡ shares_from (contributions library n rng).0 1 n)
        × (library.public_key (f.to_bytes (secret_from f.zero (contributions library n rng).0))
            ≡ some mat.group_verifying_key)
  unfolding distributed_keygen_seeded is_supported material
  seeded-parts n t rng mat h =
      elim (Option-cases
        (library.public_key (f.to_bytes (secret_from f.zero (contributions library n rng).0)))) [
          | inl e ↦ absurd (ground (arith, h, e))
          | inr (vk, e) ↦ ground (arith, h, e)
        ]

  material-shares :
      (n t : ℕ) (drawn : List (F × F)) (mat : ThresholdKeyMaterial F K)
      → material keccak library n t drawn ≡ some mat
      → mat.shares ≡ shares_from drawn 1 n
  unfolding material
  material-shares n t drawn mat h =
      elim (Option-cases (library.public_key (f.to_bytes (secret_from f.zero drawn)))) [
        | inl e ↦ absurd (ground (arith, h, e))
        | inr (vk, e) ↦ ground (arith, h, e)
      ]

  pub seeded-indices :
      (n t : ℕ) (rng : Rng) (mat : ThresholdKeyMaterial F K) (i j : ℕ) (p q : ParticipantShare F)
      → distributed_keygen_seeded keccak library n t rng ≡ some mat
      → get_elem? mat.shares i ≡ some p
      → get_elem? mat.shares j ≡ some q
      → i ≢ j
      → (mat.threshold ≡ 2) × (p.index ≢ q.index)
  seeded-indices n t rng mat i j p q h at_i at_j distinct =
      let (three, two, shares, key) = seeded-parts n t rng mat h in
      let drawn = (contributions library n rng).0 in
      let (index_p, share_p, bound_p) = shares_from-entry drawn 1 n i p (rw shares at at_i) in
      let (index_q, share_q, bound_q) = shares_from-entry drawn 1 n j q (rw shares at at_j) in
      (two, λ e. distinct (omega arith))

  -- Any two shares of a key generated from a seed interpolate to the sum of what the participants drew,
  -- and the public key of that sum is the group's key.
  pub seeded-shares :
      (n t : ℕ) (rng : Rng) (mat : ThresholdKeyMaterial F K) (i j : ℕ) (p q : ParticipantShare F)
      → distributed_keygen_seeded keccak library n t rng ≡ some mat
      → get_elem? mat.shares i ≡ some p
      → get_elem? mat.shares j ≡ some q
      → i ≢ j
      → (lagrange_interpolate_at_zero (p ∷ q ∷ [])
          ≡ some (secret_from f.zero (contributions library n rng).0))
        × (library.public_key (f.to_bytes (secret_from f.zero (contributions library n rng).0))
            ≡ some mat.group_verifying_key)
  seeded-shares n t rng mat i j p q h at_i at_j distinct =
      let (three, two, shares, key) = seeded-parts n t rng mat h in
      (
        interpolate-shares_from (contributions library n rng).0 n i j p q (omega arith)
            (rw shares at at_i) (rw shares at at_j) distinct,
        key,
      )

  checked-material :
      (n t : ℕ) (drawn : List (F × F)) (mat : ThresholdKeyMaterial F K)
      → n ≡ 3
      → material keccak library n t drawn ≡ some mat
      → checked mat ≡ some mat
  unfolding checked
  checked-material n t drawn mat three h =
      let interpolated : lagrange_interpolate_at_zero (take 2 mat.shares)
          ≡ some (secret_from f.zero drawn) =
        rw (material-shares n t drawn mat h, three) (first_two drawn) in
      rw (interpolated, checked)

  -- The check at the end of `distributed_keygen` never panics, so the two key generations agree.
  pub distributed_keygen_checked :
      (n t : ℕ) (rng : Rng)
      → distributed_keygen keccak library n t rng ≡ distributed_keygen_seeded keccak library n t rng
  unfolding distributed_keygen distributed_keygen_seeded
  distributed_keygen_checked n t rng = elim (Bool-cases (is_supported n t)) [
    | inl supported ↦
        elim (Option-cases (material keccak library n t (contributions library n rng).0)) [
          | inl e ↦ simp (supported, e)
          | inr (mat, e) ↦ simp (
            supported,
            e,
            checked-material n t (contributions library n rng).0 mat (ground (arith, supported)) e,
          )
        ]
    | inr refused ↦ simp refused
  ]
