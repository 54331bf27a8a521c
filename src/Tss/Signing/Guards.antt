-- ===== src/Tss/Signing/Guards.antt =====
-- What `threshold_sign` of crates/keymesh-tss/src/signing.rs lets through, and what it makes of a high `s`.
use key_mesh.Prelude.{
  ℕ, ◌+◌, ◌%◌, ◌≤◌, ◌<◌, ◌≡◌, ◌≢◌, ◌↔◌, refl, sym, ◌∙◌, true, false, List, [], ◌∷◌, none, some, All,
  arith, length, Bool-cases, inl, inr,
}
use key_mesh.Prelude.Bytes.{bytes_eq_iff}
use key_mesh.Prelude.Keccak.{Keccak}
use key_mesh.Prelude.Outcome.{ok, err, Result-cases}
use key_mesh.Tss.Errors.{TssError}
use key_mesh.Tss.Key.{ThresholdKeyMaterial}
use key_mesh.Tss.Session.{SessionBinding, SessionId, derive_session_id}
use key_mesh.Tss.Interactive.{SigningProtocols, curve_order, interactive_signing}
use key_mesh.Prelude.Panics.{Attempt-cases}
use key_mesh.Tss.Signing.{
  ThresholdSignature, index_seen, check_subset, signing_checks, threshold_sign, verify_signature,
  normalize, s_is_low, bytes_gt, half_order, assembled, finished,
}

-- No index stands twice.
abbrev pub Distinct : List ℕ → Type 0
Distinct [] = Unit
Distinct (i ∷ is) = All (λ j. j ≢ i) is × Distinct is

pub seen_cons :
    (i : ℕ) (seen is : List ℕ)
    → All (λ j. index_seen (i ∷ seen) j ≡ false) is
      ↔ (All (λ j. j ≢ i) is × All (λ j. index_seen seen j ≡ false) is)
unfolding index_seen
seen_cons i seen [] = (λ h. (tt, tt), λ h. tt)
seen_cons i seen (j ∷ is) =
    let others = seen_cons i seen is in
    (
      λ h. let (p, q) = others.0 h.1 in ((ground (arith, h.0), p), (ground (arith, h.0), q)),
      λ h. (ground (arith, h.0.0, h.1.0), others.1 (h.0.1, h.1.1)),
    )

check_subset_iff :
    (seen is : List ℕ) (count : ℕ)
    → (check_subset seen is count ≡ ok tt)
      ↔ (All (λ j. j < count) is × All (λ j. index_seen seen j ≡ false) is × Distinct is)
unfolding check_subset
check_subset_iff seen [] count = (λ h. (tt, tt, tt), λ h. refl)
check_subset_iff seen (i ∷ is) count =
    let later = check_subset_iff (i ∷ seen) is count in
    let step = seen_cons i seen is in
    (
      λ h.
          let here : i < count = ground (arith, h) in
          let fresh : index_seen seen i ≡ false = ground (arith, h) in
          let more : check_subset (i ∷ seen) is count ≡ ok tt = ground (arith, h) in
          let (within, unseen, distinct) = later.0 more in
          let (apart, before) = step.0 unseen in
          ((here, within), (fresh, before), (apart, distinct)),
      λ h.
          let (within, unseen, distinct) = h in
          let more = later.1 (within.1, step.1 (distinct.0, unseen.1), distinct.1) in
          ground (arith, more, within.0, unseen.0),
    )

pub none_seen : (is : List ℕ) → All (λ j. index_seen [] j ≡ false) is
unfolding index_seen
none_seen [] = tt
none_seen (i ∷ is) = (refl, none_seen is)

module _ {K H Seed Scalar : Type 0} (keccak : Keccak)
    (protocols : SigningProtocols K H Seed Scalar) where
  -- The checks before the protocol pass exactly on at least as many signers as the threshold, all of them
  -- participants and no two the same, and the session id of the binding.
  pub signing_checks_iff :
      (mat : ThresholdKeyMaterial K H) (subset : List ℕ) (binding : SessionBinding) (id : SessionId)
      → (signing_checks keccak protocols mat subset binding id ≡ ok tt) ↔ (
          (mat.threshold ≤ length subset)
          × (derive_session_id keccak binding ≡ id)
          × All (λ j. j < length mat.participants) subset
          × Distinct subset)
  unfolding signing_checks
  signing_checks_iff mat subset binding id =
      let ids = bytes_eq_iff (derive_session_id keccak binding) id in
      let members = check_subset_iff [] subset (length mat.participants) in
      (
        λ h.
            let checked : check_subset [] subset (length mat.participants) ≡ ok tt = ground arith in
            let (within, unseen, distinct) = members.0 checked in
            (ground arith, ids.0 (ground arith), within, distinct),
        λ h.
            let (enough, same, within, distinct) = h in
            let checked = members.1 (within, none_seen subset, distinct) in
            ground (arith, ids.1 same),
      )

  high_s-none :
      (s : List ℕ) (v : ℕ) → bytes_gt s half_order ≡ true → normalize keccak protocols s v ≡ none
  unfolding normalize
  high_s-none s v h =
      let refused = protocols.from_repr-order curve_order (omega arith) in
      rw (h, refused) (ground arith)

  sign-passed :
      (seed : Seed) (mat : ThresholdKeyMaterial K H) (subset : List ℕ) (binding : SessionBinding)
      (id : SessionId)
      → signing_checks keccak protocols mat subset binding id ≡ ok tt
      → threshold_sign keccak protocols seed mat subset binding id
        ≡ finished keccak protocols mat.group_public_key.verifying_key binding id
            (interactive_signing protocols seed mat.participants subset binding.digest)
  unfolding threshold_sign
  sign-passed seed mat subset binding id passed = rw (passed, threshold_sign) refl

  sign-failed :
      (seed : Seed) (mat : ThresholdKeyMaterial K H) (subset : List ℕ) (binding : SessionBinding)
      (id : SessionId) (e : TssError)
      → signing_checks keccak protocols mat subset binding id ≡ err e
      → threshold_sign keccak protocols seed mat subset binding id ≡ some (err e)
  unfolding threshold_sign
  sign-failed seed mat subset binding id e failed = rw (failed, threshold_sign) refl

  -- Where the interactive run returns an `s` above half the order, `threshold_sign` panics: the order itself is
  -- no scalar, so `Scalar::from_repr` of it has nothing to unwrap.
  pub high_s_panics :
      (seed : Seed) (mat : ThresholdKeyMaterial K H) (subset : List ℕ) (binding : SessionBinding)
      (id : SessionId) (r s : List ℕ) (recovery : ℕ)
      → signing_checks keccak protocols mat subset binding id ≡ ok tt
      → interactive_signing protocols seed mat.participants subset binding.digest
        ≡ some (ok (r, s, recovery))
      → bytes_gt s half_order ≡ true
      → threshold_sign keccak protocols seed mat subset binding id ≡ none
  high_s_panics seed mat subset binding id r s recovery passed run high =
      sign-passed seed mat subset binding id passed
      ∙ rw (run, high_s-none s ((recovery + 27) % 256) high) refl

  low_s-some :
      (s : List ℕ) (v : ℕ)
      → bytes_gt s half_order ≡ false
      → normalize keccak protocols s v ≡ some (s, v)
  unfolding normalize
  low_s-some s v h = rw h refl

  -- What is assembled carries the digest and the session, and verifies.
  assembled-ok :
      (vk : K) (binding : SessionBinding) (id : SessionId) (r s : List ℕ) (v : ℕ)
      (sig : ThresholdSignature)
      → assembled keccak protocols vk binding id r (some (s, v)) ≡ some (ok sig)
      → (sig.session_id ≡ id)
        × (sig.digest ≡ binding.digest)
        × (sig.s ≡ s)
        × (verify_signature keccak protocols binding.digest sig vk ≡ true)
  assembled-ok vk binding id r s v sig h =
      (ground (arith, h), ground (arith, h), ground (arith, h), ground (arith, h))

  run-ok :
      (vk : K) (binding : SessionBinding) (id : SessionId) (r s : List ℕ) (recovery : ℕ)
      (sig : ThresholdSignature)
      → finished keccak protocols vk binding id (some (ok (r, s, recovery))) ≡ some (ok sig)
      → (sig.session_id ≡ id)
        × (sig.digest ≡ binding.digest)
        × (s_is_low sig ≡ true)
        × (verify_signature keccak protocols binding.digest sig vk ≡ true)
  unfolding s_is_low
  run-ok vk binding id r s recovery sig h = elim (Bool-cases (bytes_gt s half_order)) [
    | inl high ↦ absurd (cc (rw (high_s-none s ((recovery + 27) % 256) high) at h))
    | inr low ↦
        let (session, digest, same, verified) =
          assembled-ok vk binding id r s ((recovery + 27) % 256) sig
            (rw (low_s-some s ((recovery + 27) % 256) low) at h) in
        (session, digest, rw (same, low) refl, verified)
  ]

  -- A signature that `threshold_sign` returns comes from enough different participants for the session
  -- of the binding, carries the binding's digest and that session, has a low `s` and verifies under the
  -- group key.
  pub threshold_sign-ok :
      (seed : Seed) (mat : ThresholdKeyMaterial K H) (subset : List ℕ) (binding : SessionBinding)
      (id : SessionId) (sig : ThresholdSignature)
      → threshold_sign keccak protocols seed mat subset binding id ≡ some (ok sig)
      → (mat.threshold ≤ length subset)
        × All (λ j. j < length mat.participants) subset
        × Distinct subset
        × (derive_session_id keccak binding ≡ id)
        × (sig.session_id ≡ id)
        × (sig.digest ≡ binding.digest)
        × (s_is_low sig ≡ true)
        × (verify_signature keccak protocols binding.digest sig mat.group_public_key.verifying_key
            ≡ true)
  threshold_sign-ok seed mat subset binding id sig h =
      elim (Result-cases (signing_checks keccak protocols mat subset binding id)) [
        | inr (x, failed) ↦ absurd (cc (sign-failed seed mat subset binding id x failed, h))
        | inl (u, passed) ↦
            let finished_ok = sym (sign-passed seed mat subset binding id passed) ∙ h in
            elim (Attempt-cases
              (interactive_signing protocols seed mat.participants subset binding.digest)) [
                | inl failed ↦ absurd (elim failed [
                  | inl panicked ↦ cc (rw panicked at finished_ok)
                  | inr (x, wrong) ↦ cc (rw wrong at finished_ok)
                ])
                | inr (out, run) ↦
                    let (enough, same, within, distinct) =
                      (signing_checks_iff mat subset binding id).0 passed in
                    let (session, digest, low, verified) =
                      run-ok mat.group_public_key.verifying_key binding id out.0 out.1 out.2 sig
                        (rw run at finished_ok) in
                    (enough, within, distinct, same, session, digest, low, verified)
              ]
      ]
