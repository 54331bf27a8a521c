-- ===== src/Tss/Lifecycle/Signing.antt =====
-- When crates/keymesh-tss/src/lifecycle.rs lets a key sign, and what an open rotation and a retirement
-- exclude.
use key_mesh.Prelude.{ℕ, ◌≡◌, ◌↔◌, refl, false, List, [], ◌∷◌, arith}
use key_mesh.Prelude.Keccak.{Keccak}
use key_mesh.Prelude.Outcome.{ok, is_ok}
use key_mesh.Tss.Key.{
  active, rotating, retired, Protocols, KeyLifecycle, retire, check_signing_allowed,
}
use key_mesh.Tss.Lifecycle.{dkg, refresh, apply_rotation, rotate_with_request}
use key_mesh.Tss.RotationStart.{begin_rotation}
use key_mesh.Tss.Lifecycle.Invariant.{
  IsSound, Call, generates, refreshes, begins, applies, rotates, retires, step, run,
}

module _ {K H Seed : Type 0} (keccak : Keccak) (protocols : Protocols K H Seed) where
  -- A sound lifecycle lets a version sign exactly when it is active and that version is the stored one.
  pub signing_iff :
      (l : KeyLifecycle K H) (version : ℕ)
      → IsSound keccak protocols l
      → (check_signing_allowed l version ≡ ok tt)
        ↔ ((l.state ≡ active) × (l.participant_set_version ≡ version))
  unfolding check_signing_allowed
  signing_iff l version s = (λ h. (ground arith, ground arith), λ h. ground arith)

  -- A call that can close a rotation: it applies a request with that request's threshold.
  abbrev pub Closes : Call keccak protocols → Type 0
  Closes (applies seed request t) = t ≡ request.threshold
  Closes _ = ⊥

  -- While a rotation of a sound lifecycle is open, no version may sign, and every call changes nothing
  -- but an application with the threshold of its request.
  pub open_rotation_excludes :
      (l : KeyLifecycle K H) (c : Call keccak protocols) (version : ℕ)
      → IsSound keccak protocols l
      → l.state ≡ rotating
      → ¬ Closes c
      → (is_ok (check_signing_allowed l version) ≡ false) × (step keccak protocols l c ≡ l)
  unfolding step check_signing_allowed dkg refresh begin_rotation apply_rotation rotate_with_request
      retire
  open_rotation_excludes l (generates seed) version s p other = (ground arith, ground arith)
  open_rotation_excludes l (refreshes seed) version s p other = (ground arith, ground arith)
  open_rotation_excludes l (begins request now) version s p other = (ground arith, ground arith)
  open_rotation_excludes l (applies seed request t) version s p other = (ground arith, ground arith)
  open_rotation_excludes l (rotates seed request now) version s p other =
      (ground arith, ground arith)
  open_rotation_excludes l retires version s p other = (ground arith, ground arith)

  retired-step :
      (l : KeyLifecycle K H) (c : Call keccak protocols)
      → l.state ≡ retired
      → step keccak protocols l c ≡ l
  unfolding step dkg refresh begin_rotation apply_rotation rotate_with_request retire
  retired-step l c p = ground arith

  -- A retired key stays as it is, whatever calls follow, and no version may sign.
  retired_forever :
      (l : KeyLifecycle K H) (cs : List (Call keccak protocols)) (version : ℕ)
      → l.state ≡ retired
      → (run keccak protocols l cs ≡ l)
        × (is_ok (check_signing_allowed (run keccak protocols l cs) version) ≡ false)
  unfolding run check_signing_allowed
  retired_forever l [] version p = (refl, ground arith)
  retired_forever l (c ∷ cs) version p =
      let same = (retired_forever l cs version p).0 in
      rw same (rw (retired-step l c p) (refl, ground arith))
