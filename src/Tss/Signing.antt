-- ===== src/Tss/Signing.antt =====
-- crates/keymesh-tss/src/signing.rs: threshold signatures.
--
-- The interactive run is in Tss/Interactive. A call that may panic returns `none`; `sig.v - 27` wraps at
-- 256 as in a release build. `Scalar` is the scalar field of k256, of which the code uses `from_repr`, the
-- difference and the bytes.
pub mod Guards
use key_mesh.Prelude.{
  ℕ, ◌+◌, ◌-◌, ◌%◌, ◌^◌, ◌≤◌, ◌<◌, ◌≡◌, Bool, true, false, not, ◌&&◌, ◌||◌, List, [], ◌∷◌, ◌++◌,
  Option, none, some, ltb, leb, ◌==◌, if◌then◌else◌, length, replicate,
}
use Prim.Native.Nat.{bit_xor}
use key_mesh.Prelude.Bytes.{bytes_eq, from_be_bytes}
use key_mesh.Prelude.Keccak.{Keccak}
use key_mesh.Prelude.Text.{Str, text}
use key_mesh.Prelude.Outcome.{Result, ok, err, ◌>>=◌, ◌>>◌, fail_if}
use key_mesh.Tss.Errors.{
  TssError, insufficient_shares, session_mismatch, unknown_participant, duplicate_participant,
  signing_failed,
}
use key_mesh.Tss.Interactive.{SigningProtocols, curve_order, interactive_signing}
use key_mesh.Tss.Key.{ThresholdKeyMaterial, Participant, Protocols}
use key_mesh.Tss.Session.{SessionBinding, SessionId, derive_session_id}

-- Half the order of secp256k1, rounded down, as bytes.
abbrev pub half_order : List ℕ
half_order =
    0x7f ∷ 0xff ∷ 0xff ∷ 0xff ∷ 0xff ∷ 0xff ∷ 0xff ∷ 0xff ∷ 0xff ∷ 0xff ∷ 0xff ∷ 0xff ∷ 0xff ∷ 0xff
    ∷ 0xff ∷ 0xff ∷ 0x5d ∷ 0x57 ∷ 0x6e ∷ 0x73 ∷ 0x57 ∷ 0xa4 ∷ 0x50 ∷ 0x1d ∷ 0xdf ∷ 0xe9 ∷ 0x2f
    ∷ 0x46 ∷ 0x68 ∷ 0x1b ∷ 0x20 ∷ 0xa0 ∷ []

-- `>` on arrays: lexicographic.
unfoldable pub bytes_gt : List ℕ → List ℕ → Bool
bytes_gt [] ys = false
bytes_gt (x ∷ xs) [] = true
bytes_gt (x ∷ xs) (y ∷ ys) =
    let rest = bytes_gt xs ys in if ltb y x then true else if x == y then rest else false

pub record ThresholdSignature : Type 0 where
  pub r : List ℕ
  pub s : List ℕ
  pub v : ℕ
  pub digest : List ℕ
  pub session_id : SessionId

unfoldable pub s_is_low : ThresholdSignature → Bool
s_is_low sig = not (bytes_gt sig.s half_order)

-- `HashSet::insert` says whether the index is new.
unfoldable pub index_seen : List ℕ → ℕ → Bool
index_seen [] idx = false
index_seen (i ∷ seen) idx = i == idx || index_seen seen idx

unfoldable pub check_subset :
    (seen subset_indices : List ℕ) (count : ℕ) → Result (Unit {0}) TssError
check_subset seen [] count = ok tt
check_subset seen (idx ∷ more) count = do
  fail_if (leb count idx) unknown_participant
  fail_if (index_seen seen idx) duplicate_participant
  check_subset (idx ∷ seen) more count

module _ {K H Seed Scalar : Type 0} (keccak : Keccak)
    (protocols : SigningProtocols K H Seed Scalar) where
  abbrev recovered_is : K → Option K → Bool
  recovered_is vk none = false
  recovered_is vk (some recovered) = protocols.key_eq recovered vk

  unfoldable pub verify_signature : List ℕ → ThresholdSignature → K → Bool
  verify_signature digest sig vk =
      let recovery_id = (sig.v + 229) % 256 in
      if not (bytes_eq sig.digest digest)
      then false
      else if ltb 3 recovery_id
      then false
      else recovered_is vk (protocols.recover digest sig.r sig.s recovery_id)

  -- `s` and `v` where `s` is above half the order; `none` is the panic of an `unwrap`.
  abbrev subtracted : ℕ → Option Scalar → Option Scalar → Option (List ℕ × ℕ)
  subtracted v (some s_scalar) (some n_scalar) =
      some (protocols.to_bytes (protocols.minus n_scalar s_scalar), bit_xor v 1)
  subtracted v _ _ = none

  unfoldable pub normalize : List ℕ → ℕ → Option (List ℕ × ℕ)
  normalize s v =
      if bytes_gt s half_order
      then subtracted v (protocols.from_repr s) (protocols.from_repr curve_order)
      else some (s, v)

  -- The signature that the run gave, once it is verified.
  abbrev assembled :
      K
      → SessionBinding
      → SessionId
      → List ℕ
      → Option (List ℕ × ℕ)
      → Option (Result ThresholdSignature TssError)
  assembled vk binding session_id r none = none
  assembled vk binding session_id r (some (s, v)) =
      let sig : ThresholdSignature = record {
        r = r;
        s = s;
        v = v;
        digest = binding.digest;
        session_id = session_id;
      } in
      if not (verify_signature binding.digest sig vk)
      then some (err (signing_failed (text "recovery mismatch")))
      else some (ok sig)

  abbrev finished :
      K
      → SessionBinding
      → SessionId
      → Option (Result (List ℕ × List ℕ × ℕ) TssError)
      → Option (Result ThresholdSignature TssError)
  finished vk binding session_id none = none
  finished vk binding session_id (some (err e)) = some (err e)
  finished vk binding session_id (some (ok (r, s, recovery))) =
      assembled vk binding session_id r (normalize s ((recovery + 27) % 256))

  -- The checks of `threshold_sign`, in their order.
  unfoldable pub signing_checks :
      ThresholdKeyMaterial K H → List ℕ → SessionBinding → SessionId → Result (Unit {0}) TssError
  signing_checks mat subset_indices binding session_id = do
    fail_if (ltb (length subset_indices) mat.threshold)
        (insufficient_shares (length subset_indices) mat.threshold)
    fail_if (not (bytes_eq (derive_session_id keccak binding) session_id))
        (session_mismatch (text "session_id does not match binding"))
    check_subset [] subset_indices (length mat.participants)

  unfoldable pub threshold_sign :
      Seed
      → ThresholdKeyMaterial K H
      → List ℕ
      → SessionBinding
      → SessionId
      → Option (Result ThresholdSignature TssError)
  threshold_sign seed mat subset_indices binding session_id =
      elim (signing_checks mat subset_indices binding session_id) [
        | err e ↦ some (err e)
        | ok _ ↦
            finished mat.group_public_key.verifying_key binding session_id
              (interactive_signing protocols seed mat.participants subset_indices binding.digest)
      ]
