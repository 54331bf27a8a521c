-- ===== src/TssProto/Signature/Soundness.antt =====
-- What `threshold_sign` of crates/keymesh-tss-proto/src/signature.rs lets through, and what it returns.
use key_mesh.Prelude.{
  ℕ, ◌+◌, ◌%◌, ◌≤◌, ◌≡◌, ◌↔◌, refl, true, false, List, [], ◌∷◌, ◌++◌, none, some, All, Option,
  arith, length, take, drop, Bool-cases, Option-cases, inl, inr,
}
use key_mesh.Prelude.Bytes.{bytes_eq_iff}
use key_mesh.Prelude.Keccak.{Keccak}
use key_mesh.Prelude.Text.{Str, text}
use key_mesh.Prelude.Outcome.{Result, ok, err, Result-cases}
use key_mesh.Tss.Session.{SessionBinding, SessionId, derive_session_id}
use key_mesh.Tss.Interactive.{curve_order}
use key_mesh.Tss.Signing.{half_order, bytes_gt, index_seen}
use key_mesh.Tss.Signing.Guards.{Distinct, seen_cons, none_seen}
use key_mesh.TssProto.Field.{Scalar}
use key_mesh.TssProto.Shamir.{ParticipantShare, lagrange_interpolate_at_zero}
use key_mesh.TssProto.Signature.{
  SigningLibrary, ThresholdSignature, s_is_low, check_distinct, signing_checks, low_s, recovered,
  finish_signing, sign_with, sign_scalar, threshold_sign, verify_signature, map_err_then,
  unwrap_then,
}

abbrev pub indices : {F : Type 0} → List (ParticipantShare F) → List ℕ
indices [] = []
indices (s ∷ shares) = s.index ∷ indices shares

check_distinct_iff :
    {F : Type 0} (seen : List ℕ) (shares : List (ParticipantShare F))
    → (check_distinct seen shares ≡ ok tt)
      ↔ (All (λ j. index_seen seen j ≡ false) (indices shares) × Distinct (indices shares))
unfolding check_distinct
check_distinct_iff seen [] = (λ h. (tt, tt), λ h. refl)
check_distinct_iff seen (s ∷ shares) =
    let later = check_distinct_iff (s.index ∷ seen) shares in
    let step = seen_cons s.index seen (indices shares) in
    (
      λ h.
          let fresh : index_seen seen s.index ≡ false = ground (arith, h) in
          let more : check_distinct (s.index ∷ seen) shares ≡ ok tt = ground (arith, h) in
          let (unseen, distinct) = later.0 more in
          let (apart, before) = step.0 unseen in ((fresh, before), (apart, distinct)),
      λ h. let more = later.1 (step.1 (h.1.0, h.0.1), h.1.1) in ground (arith, more, h.0.0),
    )

-- The checks pass exactly on at least as many shares as the threshold, no two of one participant, and
-- the session id of the binding.
pub signing_checks_pass_iff :
    {F : Type 0} (keccak : Keccak) (shares : List (ParticipantShare F)) (binding : SessionBinding)
    (id : SessionId) (threshold : ℕ)
    → (signing_checks keccak shares binding id threshold ≡ ok tt) ↔ (
        (threshold ≤ length shares)
        × Distinct (indices shares)
        × (derive_session_id keccak binding ≡ id))
unfolding signing_checks
signing_checks_pass_iff keccak shares binding id threshold =
    let ids = bytes_eq_iff (derive_session_id keccak binding) id in
    let members = check_distinct_iff [] shares in
    (
      λ h.
          let checked : check_distinct [] shares ≡ ok tt = ground arith in
          (ground arith, (members.0 checked).1, ids.0 (ground arith)),
      λ h. let checked = members.1 (none_seen (indices shares), h.1) in ground (arith, ids.1 h.2),
    )

-- A high `s` cannot be lowered: the order is no scalar.
low_s-some :
    {F : Type 0} (f : Scalar F) (s : List ℕ) (v : ℕ) (out : List ℕ × ℕ)
    → low_s f s v ≡ some out
    → (bytes_gt s half_order ≡ false) × (out ≡ (s, v))
unfolding low_s
low_s-some f s v out h =
    let refused = f.from_repr-order curve_order (omega arith) in
    elim (Bool-cases (bytes_gt s half_order)) [
      | inl high ↦ elim (Option-cases (f.from_repr s)) [
        | inl e ↦ absurd (ground (arith, h, e, refused))
        | inr (c, e) ↦ absurd (ground (arith, h, e, refused))
      ]
      | inr low ↦ (low, ground (arith, h))
    ]

-- A success went through the success of each step.
map_err_then-ok :
    {A B : Type 0} (prefix : Str) (r : Result A Str) (g : A → Option (Result B Str)) (b : B)
    → map_err_then prefix r g ≡ some (ok b)
    → (a : A) × (r ≡ ok a) × (g a ≡ some (ok b))
map_err_then-ok prefix (ok a) g b h = (a, refl, h)
map_err_then-ok prefix (err e) g b h = cc

unwrap_then-some :
    {A B : Type 0} (o : Option A) (g : A → Option B) (b : B)
    → unwrap_then o g ≡ some b
    → (a : A) × (o ≡ some a) × (g a ≡ some b)
unwrap_then-some (some a) g b h = (a, refl, h)
unwrap_then-some none g b h = cc

module _ {S Sig K : Type 0} (library : SigningLibrary S Sig K) where
  recovered-ok :
      (vk : K) (binding : SessionBinding) (id : SessionId) (r s : List ℕ) (v : ℕ)
      (sig : ThresholdSignature)
      → recovered library vk binding id r s v ≡ some (ok sig)
      → (sig.session_id ≡ id)
        × (sig.digest ≡ binding.digest)
        × (sig.s ≡ s)
        × (verify_signature library binding.digest sig vk ≡ true)
  unfolding recovered verify_signature
  recovered-ok vk binding id r s v sig h =
      let same = (bytes_eq_iff binding.digest binding.digest).1 refl in
      elim (Option-cases (library.signature_from_bytes (r ++ s))) [
        | inl e ↦ absurd (ground (arith, h, e))
        | inr (signature, e) ↦
            elim (Result-cases
              (library.recover_from_prehash binding.digest signature ((v + 229) % 256))) [
                | inr (x, failed) ↦ absurd (ground (arith, h, e, failed))
                | inl (key, found) ↦ (
                  ground (arith, h, e, found),
                  ground (arith, h, e, found),
                  ground (arith, h, e, found),
                  ground (arith, h, e, found, same),
                )
              ]
      ]

module _ {F S Sig K : Type 0} ⦃f : Scalar F⦄ (keccak : Keccak)
    (library : SigningLibrary S Sig K) where
  sign_scalar-ok :
      (vk : K) (binding : SessionBinding) (id : SessionId) (x : F) (sig : ThresholdSignature)
      → sign_scalar f library vk binding id x ≡ some (ok sig)
      → (sig.session_id ≡ id)
        × (sig.digest ≡ binding.digest)
        × (s_is_low sig ≡ true)
        × (verify_signature library binding.digest sig vk ≡ true)
  unfolding sign_scalar sign_with finish_signing s_is_low
  sign_scalar-ok vk binding id x sig h =
      let (key, _, signing) =
        map_err_then-ok (text "scalar to key: ") (library.signing_key (f.to_bytes x))
          (sign_with f library vk binding id) sig h in
      let ((bytes, recid), _, finishing) =
        map_err_then-ok (text "sign: ") (library.sign_prehash_recoverable key binding.digest)
          (finish_signing f library vk binding id) sig signing in
      let (low, lowered, recovering) =
        unwrap_then-some (low_s f (drop 32 bytes) ((recid + 27) % 256))
          (λ low. recovered library vk binding id (take 32 bytes) low.0 low.1) (ok sig) finishing in
      let (is_low, same) = low_s-some f (drop 32 bytes) ((recid + 27) % 256) low lowered in
      let (session, digest, s_same, verified) =
        recovered-ok library vk binding id (take 32 bytes) low.0 low.1 sig recovering in
      (session, digest, rw (s_same, same, is_low) refl, verified)

  -- A signature that `threshold_sign` returns comes from at least as many shares as the threshold, no
  -- two of one participant, for the session of the binding; it carries the binding's digest and that
  -- session, has a low `s` and verifies under the group's key.
  pub threshold_sign_sound :
      (shares : List (ParticipantShare F)) (vk : K) (binding : SessionBinding) (id : SessionId)
      (threshold : ℕ) (sig : ThresholdSignature)
      → threshold_sign keccak library shares vk binding id threshold ≡ some (ok sig)
      → (threshold ≤ length shares)
        × Distinct (indices shares)
        × (derive_session_id keccak binding ≡ id)
        × (sig.session_id ≡ id)
        × (sig.digest ≡ binding.digest)
        × (s_is_low sig ≡ true)
        × (verify_signature library binding.digest sig vk ≡ true)
  unfolding threshold_sign
  threshold_sign_sound shares vk binding id threshold sig h =
      elim (Result-cases (signing_checks keccak shares binding id threshold)) [
        | inr (x, failed) ↦ absurd (cc (rw (failed, threshold_sign) at h))
        | inl (u, passed) ↦
            let (x, _, signed) =
              unwrap_then-some (lagrange_interpolate_at_zero shares)
                (sign_scalar f library vk binding id) (ok sig) (rw (passed, threshold_sign) at h) in
            let (enough, distinct, same) =
              (signing_checks_pass_iff keccak shares binding id threshold).0 passed in
            let (session, digest, low, verified) = sign_scalar-ok vk binding id x sig signed in
            (enough, distinct, same, session, digest, low, verified)
      ]
