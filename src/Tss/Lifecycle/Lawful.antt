-- ===== src/Tss/Lifecycle/Lawful.antt =====
-- crates/keymesh-tss/src/lifecycle.rs over runs that keep the key and its address: the checks of
-- `refresh` and `apply_rotation` on what a run returned pass then.
use key_mesh.Prelude.{
  ℕ, ◌≤◌, ◌<◌, length, ◌≡◌, refl, false, ◌&&◌, List, [], ◌∷◌, Option, none, some, arith,
  Option-cases, inl, inr,
}
use key_mesh.Prelude.Bytes.{bytes_eq_iff}
use key_mesh.Prelude.Keccak.{Keccak}
use key_mesh.Prelude.Text.{Str}
use key_mesh.Prelude.Outcome.{ok, is_ok, Result-cases}
use key_mesh.Tss.Governance.{TssRotationRequest, mark_resharing_with_time, mark_completed}
use key_mesh.Tss.Key.{
  active, rotating, ThresholdKeyMaterial, Protocols, KeyLifecycle, retire, new_lifecycle,
}
use key_mesh.Tss.Lifecycle.{dkg, refresh, apply_rotation, rotate_with_request}
use key_mesh.Tss.RotationStart.{begin_rotation}
use key_mesh.Tss.Lifecycle.Continuity.{begin_rotation-material}
use key_mesh.Tss.Lifecycle.Rotation.{opened, begin-cases, mark-ok}
use key_mesh.Tss.RotationStatus.{resharing}
use key_mesh.Tss.Lifecycle.Invariant.{
  Call, generates, refreshes, begins, applies, rotates, retires, step, run,
}

module _ {K H Seed : Type 0} (keccak : Keccak) (protocols : Protocols K H Seed)
    (address : K → List ℕ) where
  -- What a run returns has the old key, the address of the key and the threshold that was asked for.
  pub record Lawful : Type 0 where
    pub sets_up :
        (seed : Seed) (m : ThresholdKeyMaterial K H)
        → protocols.setup_2of3 seed ≡ ok m
        → m.group_public_key.ethereum_address ≡ address m.group_public_key.verifying_key
    pub refreshes :
        (seed : Seed) (m m' : ThresholdKeyMaterial K H)
        → protocols.refresh_via_resharing seed m ≡ ok m'
        → (m'.group_public_key.verifying_key ≡ m.group_public_key.verifying_key)
          × (m'.group_public_key.ethereum_address ≡ address m.group_public_key.verifying_key)
    pub rotates :
        (seed : Seed) (m m' : ThresholdKeyMaterial K H) (ids : List Str) (t : ℕ)
        → protocols.rotation_via_resharing seed m ids t ≡ ok m'
        → (m'.group_public_key.verifying_key ≡ m.group_public_key.verifying_key)
          × (m'.group_public_key.ethereum_address ≡ address m.group_public_key.verifying_key)
          × (m'.threshold ≡ t)

  -- The address of the material is that of its key.
  abbrev pub Addressed : Option (ThresholdKeyMaterial K H) → Type 0
  Addressed none = Unit
  Addressed (some m) =
      m.group_public_key.ethereum_address ≡ address m.group_public_key.verifying_key

  module _ (lawful : Lawful) where
    dkg-Addressed :
        (seed : Seed) (l : KeyLifecycle K H)
        → Addressed l.material
        → Addressed (dkg keccak protocols seed l).1.material
    unfolding dkg
    dkg-Addressed seed l a = elim (Result-cases (protocols.setup_2of3 seed)) [
      | inl (m, e) ↦ let at = lawful.sets_up seed m e in ground (arith, at)
      | inr (x, e) ↦ ground arith
    ]

    refresh-Addressed :
        (seed : Seed) (l : KeyLifecycle K H)
        → Addressed l.material
        → Addressed (refresh keccak protocols seed l).1.material
    unfolding refresh
    refresh-Addressed seed l a = elim (Option-cases l.material) [
      | inl none_yet ↦ ground arith
      | inr (m, e) ↦ elim (Result-cases (protocols.refresh_via_resharing seed m)) [
        | inl (m', e') ↦ let (key, at) = lawful.refreshes seed m m' e' in ground (arith, key, at)
        | inr (x, e') ↦ ground arith
      ]
    ]

    apply_rotation-Addressed :
        (seed : Seed) (l : KeyLifecycle K H) (request : TssRotationRequest) (t : ℕ)
        → Addressed l.material
        → Addressed (apply_rotation keccak protocols seed l request t).1.material
    unfolding apply_rotation
    apply_rotation-Addressed seed l request t a = elim (Option-cases l.material) [
      | inl none_yet ↦ ground arith
      | inr (m, e) ↦
          elim (Result-cases
            (protocols.rotation_via_resharing seed m request.new_participant_set t)) [
              | inl (m', e') ↦
                  let (key, at, _) = lawful.rotates seed m m' request.new_participant_set t e' in
                  ground (arith, key, at)
              | inr (x, e') ↦ ground arith
            ]
    ]

    rotate-Addressed :
        (seed : Seed) (l : KeyLifecycle K H) (request : TssRotationRequest) (now : ℕ)
        → Addressed l.material
        → Addressed (rotate_with_request keccak protocols seed l request now).1.material
    unfolding rotate_with_request
    rotate-Addressed seed l request now a =
        let begun : Addressed (begin_rotation l request now).1.material =
          rw (begin_rotation-material l request now) a in
        let marked_request = (mark_resharing_with_time request now).1 in
        let applied =
          apply_rotation-Addressed seed (begin_rotation l request now).1 marked_request
            marked_request.threshold begun in
        ground (arith, begun, applied)

    step-Addressed :
        (l : KeyLifecycle K H) (c : Call keccak protocols)
        → Addressed l.material
        → Addressed (step keccak protocols l c).material
    unfolding step
    step-Addressed l (generates seed) a = dkg-Addressed seed l a
    step-Addressed l (refreshes seed) a = refresh-Addressed seed l a
    step-Addressed l (begins request now) a = rw (begin_rotation-material l request now) a
    step-Addressed l (applies seed request t) a = apply_rotation-Addressed seed l request t a
    step-Addressed l (rotates seed request now) a = rotate-Addressed seed l request now a
    step-Addressed l retires a = unfold retire in ground arith

    pub run-Addressed :
        (cs : List (Call keccak protocols))
        → Addressed (run keccak protocols new_lifecycle cs).material
    unfolding run new_lifecycle
    run-Addressed [] = tt
    run-Addressed (c ∷ cs) =
        step-Addressed (run keccak protocols new_lifecycle cs) c (run-Addressed cs)

    -- The checks on a refresh pass.
    pub refresh-is_ok :
        (seed : Seed) (l : KeyLifecycle K H) (m : ThresholdKeyMaterial K H)
        → l.state ≡ active
        → l.locked ≡ false
        → l.material ≡ some m
        → Addressed (some m)
        → is_ok (refresh keccak protocols seed l).0 ≡ is_ok (protocols.refresh_via_resharing seed m)
    unfolding refresh
    refresh-is_ok seed l m p q e a = elim (Result-cases (protocols.refresh_via_resharing seed m)) [
      | inl (m', e') ↦
          let (key, at) = lawful.refreshes seed m m' e' in
          ground (
            arith,
            key,
            at,
            (protocols.key_eq_iff m'.group_public_key.verifying_key
                m.group_public_key.verifying_key).1,
            (bytes_eq_iff m'.group_public_key.ethereum_address
                m.group_public_key.ethereum_address).1,
          )
      | inr (x, e') ↦ ground arith
    ]

    -- So do those on a rotation, where the threshold is one of the new set.
    pub apply_rotation-is_ok :
        (seed : Seed) (l : KeyLifecycle K H) (m : ThresholdKeyMaterial K H)
        (request : TssRotationRequest)
        → l.state ≡ rotating
        → l.material ≡ some m
        → Addressed (some m)
        → 0 < request.threshold
        → request.threshold ≤ length request.new_participant_set
        → is_ok (apply_rotation keccak protocols seed l request request.threshold).0
          ≡ is_ok (
              protocols.rotation_via_resharing seed m request.new_participant_set request.threshold)
    unfolding apply_rotation
    apply_rotation-is_ok seed l m request p e a positive fits =
        elim (Result-cases
          (protocols.rotation_via_resharing seed m request.new_participant_set request.threshold)) [
            | inl (m', e') ↦
                let (key, at, t) =
                  lawful.rotates seed m m' request.new_participant_set request.threshold e' in
                ground (
                  arith,
                  key,
                  at,
                  t,
                  (protocols.key_eq_iff m'.group_public_key.verifying_key
                      m.group_public_key.verifying_key).1,
                  (bytes_eq_iff m'.group_public_key.ethereum_address
                      m.group_public_key.ethereum_address).1,
                )
            | inr (x, e') ↦ ground arith
          ]

    -- A rotation in one call succeeds where it may begin and its run returns.
    pub rotate-is_ok :
        (seed : Seed) (l : KeyLifecycle K H) (m : ThresholdKeyMaterial K H)
        (request : TssRotationRequest) (now : ℕ)
        → l.material ≡ some m
        → Addressed (some m)
        → 0 < request.threshold
        → request.threshold ≤ length request.new_participant_set
        → is_ok (rotate_with_request keccak protocols seed l request now).0 ≡ (
            is_ok (begin_rotation l request now).0
            && is_ok (
                protocols.rotation_via_resharing seed m request.new_participant_set
                  request.threshold))
    rotate-is_ok seed l m request now e a positive fits = elim (begin-cases l request now) [
      | inl (b, _, _, x) ↦
          let applied =
            apply_rotation-is_ok seed (opened l) m (record request { status = resharing }) refl e a
              positive fits in
          unfold rotate_with_request mark_completed in
          rw (b, mark-ok request now x) (ground (arith, applied))
      | inr (x, b) ↦ unfold rotate_with_request in rw b (ground arith)
    ]
