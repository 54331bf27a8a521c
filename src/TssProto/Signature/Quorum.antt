-- ===== src/TssProto/Signature/Quorum.antt =====
-- crates/keymesh-tss-proto: any two participants of a generated key sign what the whole key would sign.
use key_mesh.Prelude.{
  ℕ, ◌+◌, ◌%◌, ◌<◌, ◌≡◌, ◌≢◌, refl, sym, ◌∙◌, false, List, [], ◌∷◌, ◌++◌, some, Option, arith, take,
  drop, get_elem?, take-append-drop, inl, inr,
}
use key_mesh.Prelude.Keccak.{Keccak}
use key_mesh.Prelude.Text.{Str, text}
use key_mesh.Prelude.Outcome.{Result, ok, err, Result-cases}
use key_mesh.Tss.Session.{SessionBinding, SessionId, derive_session_id}
use key_mesh.Tss.Signing.{half_order, bytes_gt}
use key_mesh.TssProto.Field.{Scalar}
use key_mesh.TssProto.Shamir.{ParticipantShare}
use key_mesh.TssProto.Keygen.{
  KeygenLibrary, ThresholdKeyMaterial, contributions, secret_from, distributed_keygen,
}
use key_mesh.TssProto.Keygen.Shares.{seeded-shares, seeded-indices, distributed_keygen_checked}
use key_mesh.TssProto.Signature.{
  SigningLibrary, ThresholdSignature, signing_checks, low_s, recovered, finish_signing, sign_with,
  sign_scalar, threshold_sign,
}
use key_mesh.TssProto.Signature.Soundness.{signing_checks_pass_iff}

-- The signature of the whole key, as `threshold_sign` returns it.
abbrev pub signed_alone :
    SessionBinding → SessionId → Result (List ℕ × ℕ) Str → Option (Result ThresholdSignature Str)
signed_alone binding session_id (err e) = some (err (text "sign: " ++ e))
signed_alone binding session_id (ok (bytes, recovery_id)) = some (
    ok (record {
      r = take 32 bytes;
      s = drop 32 bytes;
      v = recovery_id + 27;
      digest = binding.digest;
      session_id = session_id;
    }))

module _ {F S Sig K : Type 0} (f : Scalar F) (library : SigningLibrary S Sig K) where
  recovered-same :
      (vk : K) (binding : SessionBinding) (id : SessionId) (r s : List ℕ) (v : ℕ) (sig : Sig)
      → (v + 229) % 256 < 4
      → library.signature_from_bytes (r ++ s) ≡ some sig
      → library.recover_from_prehash binding.digest sig ((v + 229) % 256) ≡ ok vk
      → recovered library vk binding id r s v
        ≡ some (ok (record { r = r; s = s; v = v; digest = binding.digest; session_id = id }))
  unfolding recovered
  recovered-same vk binding id r s v sig small parsed found =
      let same = (library.key_eq_iff vk vk).1 refl in ground (arith, same, parsed, found)

  low_s-low : (s : List ℕ) (v : ℕ) → bytes_gt s half_order ≡ false → low_s f s v ≡ some (s, v)
  unfolding low_s
  low_s-low s v low = rw low refl

  finish_signing-alone :
      (x : S) (binding : SessionBinding) (id : SessionId) (bytes : List ℕ) (recovery_id : ℕ)
      → library.sign_prehash_recoverable x binding.digest ≡ ok (bytes, recovery_id)
      → finish_signing f library (library.verifying_key x) binding id (bytes, recovery_id)
        ≡ signed_alone binding id (ok (bytes, recovery_id))
  unfolding finish_signing
  finish_signing-alone x binding id bytes recovery_id signed =
      let (small, low, sig, parsed, found) =
        library.sign-recover x binding.digest bytes recovery_id signed in
      let v : (recovery_id + 27) % 256 ≡ recovery_id + 27 = omega arith in
      let back : (recovery_id + 27 + 229) % 256 ≡ recovery_id = omega arith in
      rw (v, low_s-low (drop 32 bytes) (recovery_id + 27) low)
        (recovered-same (library.verifying_key x) binding id (take 32 bytes) (drop 32 bytes)
          (recovery_id + 27) sig (omega (arith, small, back))
          (rw (take-append-drop 32 bytes) parsed) (rw back found))

  sign_with-alone :
      (x : S) (binding : SessionBinding) (id : SessionId)
      → sign_with f library (library.verifying_key x) binding id x
        ≡ signed_alone binding id (library.sign_prehash_recoverable x binding.digest)
  unfolding sign_with
  sign_with-alone x binding id =
      elim (Result-cases (library.sign_prehash_recoverable x binding.digest)) [
        | inr (e, failed) ↦ rw failed refl
        | inl ((bytes, recovery_id), signed) ↦
            rw signed (finish_signing-alone x binding id bytes recovery_id signed)
      ]

module _ {F S Sig K Rng : Type 0} ⦃f : Scalar F⦄ (keccak : Keccak) (keygen : KeygenLibrary F K Rng)
    (library : SigningLibrary S Sig K) where
  -- Where a secret gives the same public key to key generation and to signing, any two shares of a
  -- generated key sign as the whole key would: in the session of a binding, `threshold_sign` returns for
  -- them just what the signing key of the sum of the contributions makes of the binding's digest, and
  -- that signing key is the group's.
  pub threshold_sign-quorum :
      (n t : ℕ) (rng : Rng) (mat : ThresholdKeyMaterial F K) (binding : SessionBinding) (i j : ℕ)
      (p q : ParticipantShare F)
      → ((bytes : List ℕ) (vk : K)
          → keygen.public_key bytes ≡ some vk
          → (x : S) × (library.signing_key bytes ≡ ok x) × (library.verifying_key x ≡ vk))
      → distributed_keygen keccak keygen n t rng ≡ some mat
      → get_elem? mat.shares i ≡ some p
      → get_elem? mat.shares j ≡ some q
      → i ≢ j
      → (x : S) × (library.signing_key
            (f.to_bytes (secret_from f.zero (contributions keygen n rng).0))
          ≡ ok x)
        × (library.verifying_key x ≡ mat.group_verifying_key)
        × (threshold_sign keccak library
              (p ∷ q ∷ [])
              mat.group_verifying_key
              binding
              (derive_session_id keccak binding)
              mat.threshold
            ≡ signed_alone binding
                (derive_session_id keccak binding)
                (library.sign_prehash_recoverable x binding.digest))
  unfolding threshold_sign sign_scalar
  threshold_sign-quorum n t rng mat binding i j p q one_key h at_i at_j distinct =
      let seeded = sym (distributed_keygen_checked keccak keygen n t rng) ∙ h in
      let (pair, public) =
        seeded-shares keccak keygen n t rng mat i j p q seeded at_i at_j distinct in
      let (two, apart) =
        seeded-indices keccak keygen n t rng mat i j p q seeded at_i at_j distinct in
      let (x, signing, vk) = one_key _ mat.group_verifying_key public in
      let id = derive_session_id keccak binding in
      let passed : signing_checks keccak (p ∷ q ∷ []) binding id mat.threshold ≡ ok tt =
        (signing_checks_pass_iff keccak (p ∷ q ∷ []) binding id mat.threshold).1
          (omega arith, (((λ e. apart (sym e)), tt), (tt, tt)), refl) in
      (
        x,
        signing,
        vk,
        rw (passed, pair, signing, threshold_sign)
            (rw vk at (sign_with-alone f library x binding id)),
      )
