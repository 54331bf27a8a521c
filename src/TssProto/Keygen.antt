-- ===== src/TssProto/Keygen.antt =====
-- crates/keymesh-tss-proto/src/dkg.rs and lib.rs: the simulated distributed key generation.
--
-- A call returns `none` where an `assert!` or an `expect` panics; the `debug_assert_eq!` is not run in
-- a release build, but the interpolation that it checks is. The source of randomness is its state, and
-- a draw returns the next one.
pub mod Shares
use key_mesh.Prelude.{
  ℕ, zero, suc, ◌%◌, Bool, not, ◌&&◌, List, [], ◌∷◌, Option, none, some, leb, ◌==◌, if◌then◌else◌,
  take, drop,
}
use key_mesh.Prelude.Keccak.{Keccak}
use key_mesh.TssProto.Field.{Scalar, ◌⊕◌, ◌⊗◌}
use key_mesh.TssProto.Shamir.{ParticipantShare, lagrange_interpolate_at_zero}

-- `rand`'s `Scalar::random`, and of k256 the key that the bytes of a secret give, if they are one, and
-- the point of a key, not compressed.
pub record KeygenLibrary (F K Rng : Type 0) : Type 0 where
  pub random : Rng → F × Rng
  pub public_key : List ℕ → Option K
  pub encoded_point : K → List ℕ

pub record ThresholdKeyMaterial (F K : Type 0) : Type 0 where
  pub shares : List (ParticipantShare F)
  pub group_verifying_key : K
  pub ethereum_address : List ℕ
  pub threshold : ℕ
  pub total : ℕ

-- `assert!`s: only 2 of 3.
unfoldable pub is_supported : (n t : ℕ) → Bool
is_supported n t = (leb 2 t && leb t n) && (n == 3 && t == 2)

module _ {F : Type 0} ⦃f : Scalar F⦄ where
  -- A random scalar, with 1 for 0.
  unfoldable pub nonzero : F → F
  nonzero a = if f.is_zero a then f.from_u64 1 else a

  -- `x += ai` for each participant.
  unfoldable pub secret_from : F → List (F × F) → F
  secret_from x [] = x
  secret_from x ((ai, bi) ∷ more) = secret_from (x ⊕ ai) more

  -- `share_scalar += a[i] + b[i] * j_scalar` for each participant.
  unfoldable pub share_from : F → List (F × F) → F → F
  share_from share_scalar [] j_scalar = share_scalar
  share_from share_scalar ((ai, bi) ∷ more) j_scalar =
      share_from (share_scalar ⊕ (ai ⊕ bi ⊗ j_scalar)) more j_scalar

  -- The shares of `count` participants from `j` on.
  unfoldable pub shares_from : List (F × F) → (j count : ℕ) → List (ParticipantShare F)
  unfolding share_from
  shares_from drawn j zero = []
  shares_from drawn j (suc count) =
      record { index = j % 256; secret_share = share_from f.zero drawn (f.from_u64 j) }
      ∷ shares_from drawn (suc j) count

  -- The check at the end of `distributed_keygen`: the interpolation may panic, its value is not used.
  unfoldable pub checked :
      {K : Type 0} → ThresholdKeyMaterial F K → Option (ThresholdKeyMaterial F K)
  checked mat = elim (lagrange_interpolate_at_zero (take 2 mat.shares)) [
    | none ↦ none
    | some check ↦ some mat
  ]

module _ {F K Rng : Type 0} ⦃f : Scalar F⦄ (library : KeygenLibrary F K Rng) where
  unfoldable pub group_public_key_bytes : ThresholdKeyMaterial F K → List ℕ
  group_public_key_bytes mat = library.encoded_point mat.group_verifying_key

  -- What each of `n` participants draws, `a` before `b`.
  unfoldable pub contributions : ℕ → Rng → List (F × F) × Rng
  unfolding nonzero
  contributions zero rng = ([], rng)
  contributions (suc n) rng =
      let (ai, rng_a) = library.random rng in
      let (bi, rng_b) = library.random rng_a in
      let (more, rest) = contributions n rng_b in ((nonzero ai, nonzero bi) ∷ more, rest)

module _ {F K Rng : Type 0} ⦃f : Scalar F⦄ (keccak : Keccak) (library : KeygenLibrary F K Rng) where
  unfoldable pub ethereum_address_from_verifying_key : K → List ℕ
  ethereum_address_from_verifying_key vk = drop 12 (keccak.hash (drop 1 (library.encoded_point vk)))

  -- The key material of what was drawn; `none` is the panic of `expect("scalar to secret")`.
  unfoldable pub material : (n t : ℕ) → List (F × F) → Option (ThresholdKeyMaterial F K)
  unfolding shares_from secret_from ethereum_address_from_verifying_key
  material n t drawn = elim (library.public_key (f.to_bytes (secret_from f.zero drawn))) [
    | none ↦ none
    | some group_verifying_key ↦ some (record {
      shares = shares_from drawn 1 n;
      group_verifying_key = group_verifying_key;
      ethereum_address = ethereum_address_from_verifying_key group_verifying_key;
      threshold = t;
      total = n;
    })
  ]

  -- `distributed_keygen_seeded`, from the state that the seed gives.
  unfoldable pub distributed_keygen_seeded : (n t : ℕ) → Rng → Option (ThresholdKeyMaterial F K)
  unfolding is_supported contributions material
  distributed_keygen_seeded n t rng =
      if not (is_supported n t) then none else material n t (contributions library n rng).0

  unfoldable pub distributed_keygen : (n t : ℕ) → Rng → Option (ThresholdKeyMaterial F K)
  unfolding is_supported contributions material checked
  distributed_keygen n t rng =
      if not (is_supported n t) then none else elim (material n t (contributions library n rng).0) [
        | none ↦ none
        | some mat ↦ checked mat
      ]
