-- ===== src/TssProto/Signature.antt =====
-- crates/keymesh-tss-proto/src/signature.rs: a signature with the key that shares interpolate to.
--
-- The session of crates/keymesh-tss-proto/src/session.rs is that of keymesh-tss, comments aside, so it is
-- Tss.Session. A call returns `none` where an `unwrap` panics, and `v - 27` wraps at 256 as in a release
-- build.
pub mod Quorum
pub mod Soundness
use Prim.Native.Nat.{bit_xor}
use key_mesh.Prelude.{
  ℕ, ◌+◌, ◌%◌, ◌<◌, ◌≡◌, ◌↔◌, Bool, true, false, not, List, [], ◌∷◌, ◌++◌, Option, none, some, ltb,
  if◌then◌else◌, length, take, drop,
}
use key_mesh.Prelude.Bytes.{bytes_eq}
use key_mesh.Prelude.Keccak.{Keccak}
use key_mesh.Prelude.Text.{Str, text, decimal}
use key_mesh.Prelude.Outcome.{Result, ok, err, ◌>>=◌, ◌>>◌, fail_if}
use key_mesh.Tss.Session.{SessionBinding, SessionId, derive_session_id}
use key_mesh.Tss.Interactive.{curve_order}
use key_mesh.Tss.Signing.{half_order, bytes_gt, index_seen}
use key_mesh.TssProto.Field.{Scalar}
use key_mesh.TssProto.Shamir.{ParticipantShare, lagrange_interpolate_at_zero}

pub record ThresholdSignature : Type 0 where
  pub r : List ℕ
  pub s : List ℕ
  pub v : ℕ
  pub digest : List ℕ
  pub session_id : SessionId

unfoldable pub to_bytes_65 : ThresholdSignature → List ℕ
to_bytes_65 sig = sig.r ++ (sig.s ++ (sig.v ∷ []))

-- `self.s <= N_HALF`.
unfoldable pub s_is_low : ThresholdSignature → Bool
s_is_low sig = not (bytes_gt sig.s half_order)

-- `k256::ecdsa`: a signing key of the bytes of a scalar, its verifying key, the 64 bytes of a signature
-- with the recovery id, and the key that they give back. k256 gives the lower of the two values of `s`.
pub record SigningLibrary (S Sig K : Type 0) : Type 0 where
  pub key_eq : K → K → Bool
  pub key_eq_iff : (a b : K) → (key_eq a b ≡ true) ↔ (a ≡ b)
  pub signing_key : List ℕ → Result S Str
  pub verifying_key : S → K
  pub sign_prehash_recoverable : S → List ℕ → Result (List ℕ × ℕ) Str
  pub signature_from_bytes : List ℕ → Option Sig
  pub recover_from_prehash : List ℕ → Sig → ℕ → Result K Str
  pub sign-recover :
      (x : S) (digest bytes : List ℕ) (recovery_id : ℕ)
      → sign_prehash_recoverable x digest ≡ ok (bytes, recovery_id)
      → (recovery_id < 4)
        × (bytes_gt (drop 32 bytes) half_order ≡ false)
        × (sig : Sig) × (signature_from_bytes bytes ≡ some sig)
        × (recover_from_prehash digest sig recovery_id ≡ ok (verifying_key x))

-- `seen.insert(s.index)` for each share.
unfoldable pub check_distinct :
    {F : Type 0} → (seen : List ℕ) (shares : List (ParticipantShare F)) → Result (Unit {0}) Str
check_distinct seen [] = ok tt
check_distinct seen (s ∷ shares) = do
  fail_if (index_seen seen s.index) (text "duplicate participant")
  check_distinct (s.index ∷ seen) shares

-- `.map_err(|e| format!("...: {e}"))?` in front of the rest.
abbrev pub map_err_then :
    {A B : Type 0} → Str → Result A Str → (A → Option (Result B Str)) → Option (Result B Str)
map_err_then prefix (err e) f = some (err (prefix ++ e))
map_err_then prefix (ok a) f = f a

-- An `unwrap` in front of the rest.
abbrev pub unwrap_then : {A B : Type 0} → Option A → (A → Option B) → Option B
unwrap_then none f = none
unwrap_then (some a) f = f a

-- The checks of `threshold_sign` before the key is interpolated.
unfoldable pub signing_checks :
    {F : Type 0}
    → Keccak
    → List (ParticipantShare F)
    → SessionBinding
    → SessionId
    → ℕ
    → Result (Unit {0}) Str
unfolding check_distinct
signing_checks keccak shares binding session_id threshold = do
  fail_if (ltb (length shares) threshold) (
      text "insufficient shares: have "
      ++ (decimal (length shares) ++ (text ", need " ++ decimal threshold)))
  check_distinct [] shares
  fail_if (not (bytes_eq (derive_session_id keccak binding) session_id))
      (text "session_id does not match binding")

-- `s` and `v` after the normalization.
unfoldable pub low_s : {F : Type 0} → Scalar F → List ℕ → ℕ → Option (List ℕ × ℕ)
low_s f s v =
    if bytes_gt s half_order
    then unwrap_then (f.from_repr s) (λ s_scalar.
      unwrap_then (f.from_repr curve_order)
        (λ n_scalar. some (f.to_bytes (f.sub n_scalar s_scalar), bit_xor v 1)))
    else some (s, v)

module _ {S Sig K : Type 0} (library : SigningLibrary S Sig K) where
  -- The check that the signature gives back the group's key.
  unfoldable pub recovered :
      K
      → SessionBinding
      → SessionId
      → (r s : List ℕ) (v : ℕ) → Option (Result ThresholdSignature Str)
  recovered group_vk binding session_id r s v =
      let recovery_id = (v + 229) % 256 in
      if ltb 3 recovery_id
      then none
      else unwrap_then (library.signature_from_bytes (r ++ s)) (λ sig.
        map_err_then (text "recover: ")
          (library.recover_from_prehash binding.digest sig recovery_id)
          (λ key.
            if not (library.key_eq key group_vk)
            then some (err (text "recovered key mismatch"))
            else some (
                ok (record {
                  r = r;
                  s = s;
                  v = v;
                  digest = binding.digest;
                  session_id = session_id;
                }))))

  abbrev recovered_is : K → Result K Str → Bool
  recovered_is vk (ok recovered) = library.key_eq recovered vk
  recovered_is vk (err e) = false

  abbrev signature_is : List ℕ → ℕ → K → Option Sig → Bool
  signature_is digest recovery_id vk none = false
  signature_is digest recovery_id vk (some signature) =
      if ltb 3 recovery_id
      then false
      else recovered_is vk (library.recover_from_prehash digest signature recovery_id)

  unfoldable pub verify_signature : List ℕ → ThresholdSignature → K → Bool
  verify_signature digest sig vk =
      if not (bytes_eq sig.digest digest)
      then false
      else signature_is digest ((sig.v + 229) % 256) vk
          (library.signature_from_bytes (sig.r ++ sig.s))

module _ {F S Sig K : Type 0} (f : Scalar F) (library : SigningLibrary S Sig K) where
  -- From what the library signed on.
  unfoldable pub finish_signing :
      K → SessionBinding → SessionId → List ℕ × ℕ → Option (Result ThresholdSignature Str)
  unfolding low_s recovered
  finish_signing group_vk binding session_id (sig_bytes, recid) =
      unwrap_then (low_s f (drop 32 sig_bytes) ((recid + 27) % 256))
        (λ low. recovered library group_vk binding session_id (take 32 sig_bytes) low.0 low.1)

  -- From the signing key on.
  unfoldable pub sign_with :
      K → SessionBinding → SessionId → S → Option (Result ThresholdSignature Str)
  unfolding finish_signing
  sign_with group_vk binding session_id signing_key =
      map_err_then (text "sign: ") (library.sign_prehash_recoverable signing_key binding.digest)
        (finish_signing group_vk binding session_id)

  -- From the interpolated scalar on.
  unfoldable pub sign_scalar :
      K → SessionBinding → SessionId → F → Option (Result ThresholdSignature Str)
  unfolding sign_with
  sign_scalar group_vk binding session_id x_scalar =
      map_err_then (text "scalar to key: ") (library.signing_key (f.to_bytes x_scalar))
        (sign_with group_vk binding session_id)

module _ {F S Sig K : Type 0} ⦃f : Scalar F⦄ (keccak : Keccak)
    (library : SigningLibrary S Sig K) where
  unfoldable pub threshold_sign :
      List (ParticipantShare F)
      → K
      → SessionBinding
      → SessionId
      → ℕ
      → Option (Result ThresholdSignature Str)
  unfolding signing_checks sign_scalar
  threshold_sign shares group_vk binding session_id threshold =
      elim (signing_checks keccak shares binding session_id threshold) [
        | err e ↦ some (err e)
        | ok _ ↦
            unwrap_then (lagrange_interpolate_at_zero shares)
              (sign_scalar f library group_vk binding session_id)
      ]
