-- ===== src/Tss/Lifecycle/Rotation.antt =====
-- A rotation in one call, `rotate_with_request` of crates/keymesh-tss/src/lifecycle.rs: all or nothing.
use key_mesh.Prelude.{
  ℕ, ◌+◌, ◌%◌, ◌^◌, ◌≡◌, ◌⊎◌, refl, true, false, some, arith, Option-cases, inl, inr,
}
use key_mesh.Prelude.Keccak.{Keccak}
use key_mesh.Prelude.Outcome.{ok, err, Result-cases, is_ok}
use key_mesh.Tss.Errors.{TssError}
use key_mesh.Tss.Governance.{
  TssRotationRequest, mark_resharing_with_time, mark_completed, mark_failed, is_executable,
}
use key_mesh.Tss.RotationStatus.{completed, failed, resharing}
use key_mesh.Tss.Key.{active, rotating, ThresholdKeyMaterial, Protocols, KeyLifecycle}
use key_mesh.Tss.Lifecycle.{apply_rotation, rotate_with_request, settled}
use key_mesh.Tss.RotationStart.{begin_rotation, rotation_checks}
use key_mesh.Tss.Lifecycle.Invariant.{IsSound}

abbrev pub opened : {K H : Type 0} → KeyLifecycle K H → KeyLifecycle K H
opened l = record l { state = rotating; locked = true }

-- A rotation opens an active key for an executable request, or leaves everything as it is.
pub begin-cases :
    {K H : Type 0} (l : KeyLifecycle K H) (request : TssRotationRequest) (now : ℕ)
    → ((begin_rotation l request now ≡ (ok tt, opened l))
        × (l.state ≡ active)
        × (l.locked ≡ false)
        × (is_executable request now ≡ true))
      ⊎ ((e : TssError) × (begin_rotation l request now ≡ (err e, l)))
unfolding begin_rotation
begin-cases l request now = elim (Result-cases (rotation_checks l request now)) [
  | inl (u, e) ↦ inl (ground arith, ground arith, ground arith, ground arith)
  | inr (x, e) ↦ inr (x, ground arith)
]

pub mark-ok :
    (request : TssRotationRequest) (now : ℕ)
    → is_executable request now ≡ true
    → mark_resharing_with_time request now ≡ (ok tt, record request { status = resharing })
unfolding is_executable mark_resharing_with_time
mark-ok request now h = ground arith

module _ {K H Seed : Type 0} (keccak : Keccak) (protocols : Protocols K H Seed) where
  -- Applying to an open rotation either fails and closes it, or succeeds with the next version.
  apply-outcome :
      (seed : Seed) (l : KeyLifecycle K H) (m : ThresholdKeyMaterial K H)
      (request : TssRotationRequest)
      → l.state ≡ rotating
      → l.material ≡ some m
      → let r = apply_rotation keccak protocols seed l request request.threshold in
        (is_ok r.0 ≡ false → r.1 ≡ settled l)
        × (is_ok r.0 ≡ true
            → (r.1.state ≡ active)
              × (r.1.locked ≡ false)
              × (r.1.participant_set_version ≡ (l.participant_set_version + 1) % 2 ^ 64)
              × (r.1.group_key_bytes ≡ l.group_key_bytes))
  unfolding apply_rotation
  apply-outcome seed l m request p e =
      (λ h. ground arith, λ h. (ground arith, ground arith, ground arith, ground arith))

  -- From a sound lifecycle, `rotate_with_request` is all or nothing. Where it succeeds, the key was active
  -- and the request executable; the key is active again at the next version (modulo 2 ^ 64) with the
  -- same stored key bytes, and the request is completed. Where it fails, the lifecycle is as it was, and
  -- the request is as it was or failed.
  pub rotate-all_or_nothing :
      (seed : Seed) (l : KeyLifecycle K H) (request : TssRotationRequest) (now : ℕ)
      → IsSound keccak protocols l
      → let r = rotate_with_request keccak protocols seed l request now in
        (is_ok r.0 ≡ true
          → (l.state ≡ active)
            × (is_executable request now ≡ true)
            × (r.1.state ≡ active)
            × (r.1.participant_set_version ≡ (l.participant_set_version + 1) % 2 ^ 64)
            × (r.1.group_key_bytes ≡ l.group_key_bytes)
            × (r.2.status ≡ completed))
        × (is_ok r.0 ≡ false → (r.1 ≡ l) × ((r.2 ≡ request) ⊎ (r.2.status ≡ failed)))
  unfolding mark_completed mark_failed
  rotate-all_or_nothing seed l request now s = elim (begin-cases l request now) [
    | inl (b, a, u, x) ↦ elim (Option-cases l.material) [
      | inl none_yet ↦ absurd (ground arith)
      | inr (m, e) ↦
          let outcome =
            apply-outcome seed (opened l) m (record request { status = resharing }) refl e in
          unfold rotate_with_request in rw (b, mark-ok request now x) (ground (arith, outcome))
    ]
    | inr (e, b) ↦ unfold rotate_with_request in rw b (ground arith)
  ]
