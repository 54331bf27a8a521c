-- ===== src/Tss/Lifecycle/Continuity.antt =====
-- The group key in crates/keymesh-tss/src/lifecycle.rs: refreshes and rotations keep it.
use key_mesh.Prelude.{ℕ, ◌≡◌, List, [], ◌∷◌, Option, none, some, arith, Option-cases, inl, inr}
use key_mesh.Prelude.Bytes.{bytes_eq_iff}
use key_mesh.Prelude.Keccak.{Keccak}
use key_mesh.Prelude.Outcome.{Result-cases}
use key_mesh.Tss.Governance.{TssRotationRequest, mark_resharing_with_time}
use key_mesh.Tss.Key.{GroupPublicKey, ThresholdKeyMaterial, Protocols, KeyLifecycle, retire}
use key_mesh.Tss.Lifecycle.{dkg, refresh, apply_rotation, rotate_with_request}
use key_mesh.Tss.RotationStart.{begin_rotation}
use key_mesh.Tss.Lifecycle.Invariant.{
  IsSound, Call, generates, refreshes, begins, applies, rotates, retires, step, run,
  run_from-IsSound,
}

pub begin_rotation-material :
    {K H : Type 0} (l : KeyLifecycle K H) (request : TssRotationRequest) (now : ℕ)
    → (begin_rotation l request now).1.material ≡ l.material
unfolding begin_rotation
begin_rotation-material l request now = ground arith

module _ {K H Seed : Type 0} (keccak : Keccak) (protocols : Protocols K H Seed) where
  -- Material with this key and this address.
  abbrev pub Keeps : GroupPublicKey K → Option (ThresholdKeyMaterial K H) → Type 0
  Keeps g none = ⊥
  Keeps g (some m) =
      (m.group_public_key.verifying_key ≡ g.verifying_key)
      × (m.group_public_key.ethereum_address ≡ g.ethereum_address)

  module _ (g : GroupPublicKey K) where
    dkg-Keeps :
        (seed : Seed) (l : KeyLifecycle K H)
        → IsSound keccak protocols l
        → Keeps g l.material
        → Keeps g (dkg keccak protocols seed l).1.material
    unfolding dkg
    dkg-Keeps seed l s k = ground arith

    refresh-Keeps :
        (seed : Seed) (l : KeyLifecycle K H)
        → Keeps g l.material
        → Keeps g (refresh keccak protocols seed l).1.material
    unfolding refresh
    refresh-Keeps seed l k = elim (Option-cases l.material) [
      | inl none_yet ↦ absurd (rw none_yet at k)
      | inr (m, e) ↦ elim (Result-cases (protocols.refresh_via_resharing seed m)) [
        | inl (m', e') ↦ ground (
          arith,
          (protocols.key_eq_iff m'.group_public_key.verifying_key
              m.group_public_key.verifying_key).0,
          (bytes_eq_iff m'.group_public_key.ethereum_address m.group_public_key.ethereum_address).0,
        )
        | inr (x, e') ↦ ground arith
      ]
    ]

    apply_rotation-Keeps :
        (seed : Seed) (l : KeyLifecycle K H) (request : TssRotationRequest) (t : ℕ)
        → Keeps g l.material
        → Keeps g (apply_rotation keccak protocols seed l request t).1.material
    unfolding apply_rotation
    apply_rotation-Keeps seed l request t k = elim (Option-cases l.material) [
      | inl none_yet ↦ absurd (rw none_yet at k)
      | inr (m, e) ↦
          elim (Result-cases
            (protocols.rotation_via_resharing seed m request.new_participant_set t)) [
              | inl (m', e') ↦ ground (
                arith,
                (protocols.key_eq_iff m'.group_public_key.verifying_key
                    m.group_public_key.verifying_key).0,
                (bytes_eq_iff m'.group_public_key.ethereum_address
                    m.group_public_key.ethereum_address).0,
              )
              | inr (x, e') ↦ ground arith
            ]
    ]

    pub rotate-Keeps :
        (seed : Seed) (l : KeyLifecycle K H) (request : TssRotationRequest) (now : ℕ)
        → Keeps g l.material
        → Keeps g (rotate_with_request keccak protocols seed l request now).1.material
    unfolding rotate_with_request
    rotate-Keeps seed l request now k =
        let kept : Keeps g (begin_rotation l request now).1.material =
          rw (begin_rotation-material l request now) k in
        let marked_request = (mark_resharing_with_time request now).1 in
        let applied_kept =
          apply_rotation-Keeps seed (begin_rotation l request now).1 marked_request
            marked_request.threshold kept in
        ground (arith, kept, applied_kept)

    step-Keeps :
        (l : KeyLifecycle K H) (c : Call keccak protocols)
        → IsSound keccak protocols l
        → Keeps g l.material
        → Keeps g (step keccak protocols l c).material
    unfolding step
    step-Keeps l (generates seed) s k = dkg-Keeps seed l s k
    step-Keeps l (refreshes seed) s k = refresh-Keeps seed l k
    step-Keeps l (begins request now) s k = rw (begin_rotation-material l request now) k
    step-Keeps l (applies seed request t) s k = apply_rotation-Keeps seed l request t k
    step-Keeps l (rotates seed request now) s k = rotate-Keeps seed l request now k
    step-Keeps l retires s k = unfold retire in ground arith

  -- From a sound lifecycle with a key, whatever the protocols return and whatever calls follow: there is
  -- material, and its verifying key and its address are those of that key.
  pub run-Keeps :
      (g : GroupPublicKey K) (l : KeyLifecycle K H) (cs : List (Call keccak protocols))
      → IsSound keccak protocols l
      → Keeps g l.material
      → Keeps g (run keccak protocols l cs).material
  unfolding run
  run-Keeps g l [] s k = k
  run-Keeps g l (c ∷ cs) s k =
      step-Keeps g (run keccak protocols l cs) c (run_from-IsSound keccak protocols l cs s)
        (run-Keeps g l cs s k)
