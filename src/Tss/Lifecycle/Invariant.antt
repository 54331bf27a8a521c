-- ===== src/Tss/Lifecycle/Invariant.antt =====
-- What holds of a key's lifecycle in crates/keymesh-tss/src/lifecycle.rs between two calls.
use key_mesh.Prelude.{
  ℕ, ◌≡◌, refl, Bool, true, false, List, [], ◌∷◌, Option, none, some, arith, Option-cases, inl, inr,
}
use key_mesh.Prelude.Keccak.{Keccak}
use key_mesh.Prelude.Outcome.{Result-cases}
use key_mesh.Tss.Governance.{TssRotationRequest, mark_resharing_with_time}
use key_mesh.Tss.Key.{
  TssKeyState, created, active, rotating, retired, ThresholdKeyMaterial, Protocols, KeyLifecycle,
  new_lifecycle, retire,
}
use key_mesh.Tss.Lifecycle.{
  compressed_verifying_key, derive_key_id, dkg, refresh, apply_rotation, rotate_with_request,
}
use key_mesh.Tss.RotationStart.{begin_rotation}

module _ {K H Seed : Type 0} (keccak : Keccak) (protocols : Protocols K H Seed) where
  -- The stored key bytes and the key id belong to the material.
  abbrev pub Bound : ThresholdKeyMaterial K H → Option (List ℕ) → List ℕ → ℕ → Type 0
  Bound m bytes key_id version =
      (bytes ≡ some (compressed_verifying_key keccak protocols m.group_public_key.verifying_key))
      × (key_id ≡ derive_key_id keccak protocols m.group_public_key m.threshold version)

  abbrev pub Phase :
      TssKeyState → Option (ThresholdKeyMaterial K H) → Option (List ℕ) → List ℕ → ℕ → Bool → Type 0
  Phase created none bytes key_id version locked = (locked ≡ false) × (bytes ≡ none)
  Phase active (some m) bytes key_id version locked =
      (locked ≡ false) × Bound m bytes key_id version
  Phase rotating (some m) bytes key_id version locked =
      (locked ≡ true) × Bound m bytes key_id version
  Phase retired (some m) bytes key_id version locked =
      (locked ≡ false) × Bound m bytes key_id version
  Phase _ _ bytes key_id version locked = ⊥

  abbrev pub IsSound : KeyLifecycle K H → Type 0
  IsSound l = Phase l.state l.material l.group_key_bytes l.key_id l.participant_set_version l.locked

  pub data Call : Type 0 where
    generates refreshes : Seed → Call
    begins : TssRotationRequest → (now_seconds : ℕ) → Call
    applies : Seed → TssRotationRequest → (new_threshold : ℕ) → Call
    rotates : Seed → TssRotationRequest → (now_seconds : ℕ) → Call
    retires : Call

  unfoldable pub step : KeyLifecycle K H → Call → KeyLifecycle K H
  step l (generates seed) = (dkg keccak protocols seed l).1
  step l (refreshes seed) = (refresh keccak protocols seed l).1
  step l (begins request now_seconds) = (begin_rotation l request now_seconds).1
  step l (applies seed request new_threshold) =
      (apply_rotation keccak protocols seed l request new_threshold).1
  step l (rotates seed request now_seconds) =
      (rotate_with_request keccak protocols seed l request now_seconds).1
  step l retires = (retire l).1

  -- A history, its latest call first.
  unfoldable pub run : KeyLifecycle K H → List Call → KeyLifecycle K H
  run l [] = l
  run l (c ∷ cs) = step (run l cs) c

  dkg-IsSound :
      (seed : Seed) (l : KeyLifecycle K H) → IsSound l → IsSound (dkg keccak protocols seed l).1
  unfolding dkg
  dkg-IsSound seed l s = ground arith

  retire-IsSound : (l : KeyLifecycle K H) → IsSound l → IsSound (retire l).1
  unfolding retire
  retire-IsSound l s = ground arith

  begin_rotation-IsSound :
      (l : KeyLifecycle K H) (request : TssRotationRequest) (now : ℕ)
      → IsSound l
      → IsSound (begin_rotation l request now).1
  unfolding begin_rotation
  begin_rotation-IsSound l request now s = ground arith

  refresh-IsSound :
      (seed : Seed) (l : KeyLifecycle K H) → IsSound l → IsSound (refresh keccak protocols seed l).1
  unfolding refresh derive_key_id
  refresh-IsSound seed l s = elim (Option-cases l.material) [
    | inl none_yet ↦ ground arith
    | inr (m, e) ↦ elim (Result-cases (protocols.refresh_via_resharing seed m)) [
      | inl (m', e') ↦ ground (
        arith,
        (protocols.key_eq_iff m'.group_public_key.verifying_key m.group_public_key.verifying_key).0,
        protocols.refresh_threshold seed m m' e',
      )
      | inr (x, e') ↦ ground arith
    ]
  ]

  apply_rotation-IsSound :
      (seed : Seed) (l : KeyLifecycle K H) (request : TssRotationRequest) (t : ℕ)
      → IsSound l
      → IsSound (apply_rotation keccak protocols seed l request t).1
  unfolding apply_rotation
  apply_rotation-IsSound seed l request t s = elim (Option-cases l.material) [
    | inl none_yet ↦ ground arith
    | inr (m, e) ↦
        elim (Result-cases
          (protocols.rotation_via_resharing seed m request.new_participant_set t)) [
            | inl (m', e') ↦
                let same =
                  (protocols.key_eq_iff m'.group_public_key.verifying_key
                    m.group_public_key.verifying_key).0 in
                ground (arith, same)
            | inr (x, e') ↦ ground arith
          ]
  ]

  rotate-IsSound :
      (seed : Seed) (l : KeyLifecycle K H) (request : TssRotationRequest) (now : ℕ)
      → IsSound l
      → IsSound (rotate_with_request keccak protocols seed l request now).1
  unfolding rotate_with_request
  rotate-IsSound seed l request now s =
      let begun_sound = begin_rotation-IsSound l request now s in
      let opened = (begin_rotation l request now).1 in
      let marked_request = (mark_resharing_with_time request now).1 in
      let applied_sound =
        apply_rotation-IsSound seed opened marked_request marked_request.threshold begun_sound in
      ground (arith, applied_sound)

  -- Every call, a failed one too, keeps a sound lifecycle sound.
  step-IsSound : (l : KeyLifecycle K H) (c : Call) → IsSound l → IsSound (step l c)
  unfolding step
  step-IsSound l (generates seed) s = dkg-IsSound seed l s
  step-IsSound l (refreshes seed) s = refresh-IsSound seed l s
  step-IsSound l (begins request now) s = begin_rotation-IsSound l request now s
  step-IsSound l (applies seed request t) s = apply_rotation-IsSound seed l request t s
  step-IsSound l (rotates seed request now) s = rotate-IsSound seed l request now s
  step-IsSound l retires s = retire-IsSound l s

  pub run_from-IsSound : (l : KeyLifecycle K H) (cs : List Call) → IsSound l → IsSound (run l cs)
  unfolding run
  run_from-IsSound l [] s = s
  run_from-IsSound l (c ∷ cs) s = step-IsSound (run l cs) c (run_from-IsSound l cs s)

  -- Whatever calls a new lifecycle receives: it is never between two states, it is locked exactly while a
  -- rotation is open, and where there is material, the stored key bytes are those of its key and the key
  -- id is derived from its key, its threshold and the stored version.
  pub new_lifecycle-IsSound : (cs : List Call) → IsSound (run new_lifecycle cs)
  unfolding new_lifecycle
  new_lifecycle-IsSound cs = run_from-IsSound new_lifecycle cs (refl, refl)
