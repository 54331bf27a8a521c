-- ===== src/Tss/Synedrion/Provision.antt =====
-- The lifecycle of crates/keymesh-tss/src/lifecycle.rs over the set-up and the resharings of the crate
-- itself, which run synedrion.
use key_mesh.Prelude.{ℕ, ◌≡◌, false, ◌&&◌, List, ◌∷◌, none, some, arith, sym, ◌∙◌}
use key_mesh.Prelude.Keccak.{Keccak}
use key_mesh.Prelude.Outcome.{Result, ok, err, is_ok}
use key_mesh.Prelude.Panics.{Attempt}
use key_mesh.Tss.Errors.{TssError}
use key_mesh.Tss.Governance.{TssRotationRequest}
use key_mesh.Tss.Governance.Invariant
use key_mesh.Tss.Key.{
  active, Participant, ThresholdKeyMaterial, Protocols, KeyLifecycle, new_lifecycle,
}
use key_mesh.Tss.RotationStart.{begin_rotation}
use key_mesh.Tss.Lifecycle.{refresh, rotate_with_request}
use key_mesh.Tss.Lifecycle.Invariant.{Call, run}
use key_mesh.Tss.Lifecycle.Lawful.{Lawful, Addressed, run-Addressed, refresh-is_ok, rotate-is_ok}
use key_mesh.Tss.Synedrion.{Holding, Synedrion, ethereum_address_of}
use key_mesh.Tss.Synedrion.Refresh.{do_refresh_via_resharing}
use key_mesh.Tss.Synedrion.Refresh.Kept.{SameSeats, refresh-kept}
use key_mesh.Tss.Synedrion.Refresh.Returns.{Delivers, refresh_returns}
use key_mesh.Prelude.Bytes.{bytes_eq_iff}
use key_mesh.Tss.Synedrion.Rotation.{do_rotation_via_resharing}
use key_mesh.Tss.Synedrion.Rotation.Handover.{rotation-kept}
use key_mesh.Tss.Synedrion.Setup.{setup_2of3_with_rng}
use key_mesh.Tss.Synedrion.Setup.Founded.{setup-IsFounded}

-- A panic ends the caller too; here it is an error that is given.
abbrev pub outcome : {A : Type 0} → TssError → Attempt A TssError → Result A TssError
outcome panicked none = err panicked
outcome panicked (some result) = result

pub outcome-ok :
    {A : Type 0} (panicked : TssError) (x : Attempt A TssError) (a : A)
    → outcome panicked x ≡ ok a
    → x ≡ some (ok a)
outcome-ok panicked none a h = absurd cc
outcome-ok panicked (some result) a h = cc

module _ {K X V Share Aux Point Init Whole Seed : Type 0}
    (synedrion : Synedrion K X V Share Aux Point Init Whole Seed) (keccak : Keccak)
    (panicked : TssError) where
  -- A seed of three is the randomness of the runs of one call.
  abbrev pub resharing_protocols : Protocols K (Holding X V Share Aux) (Seed × Seed × Seed)
  resharing_protocols = record {
    key_eq = synedrion.key_eq;
    key_eq_iff = synedrion.key_eq_iff;
    encoded_point = synedrion.encoded_point;
    setup_2of3 =
        λ seed. outcome panicked (setup_2of3_with_rng synedrion keccak seed.0 seed.1 seed.2);
    refresh_via_resharing =
        λ seed m. outcome panicked (do_refresh_via_resharing synedrion keccak seed.0 seed.1 m);
    rotation_via_resharing = λ seed m ids t.
        outcome panicked (do_rotation_via_resharing synedrion keccak seed.0 seed.1 m ids t);
    refresh_threshold = λ seed m m' h.
        (refresh-kept synedrion keccak seed.0 seed.1 m m' (outcome-ok panicked _ m' h)).2;
  }

  resharing-Lawful : Lawful keccak resharing_protocols (ethereum_address_of synedrion keccak)
  resharing-Lawful = record {
    sets_up = λ seed m h.
        (setup-IsFounded synedrion keccak seed.0 seed.1 seed.2 m (outcome-ok panicked _ m h)).2;
    refreshes = λ seed m m' h.
        let (key, at, _, _, _) =
          refresh-kept synedrion keccak seed.0 seed.1 m m' (outcome-ok panicked _ m' h) in
        (key, at);
    rotates = λ seed m m' ids t h.
        let (key, at, threshold, _, _, _, _) =
          rotation-kept synedrion keccak seed.0 seed.1 m m' ids t (outcome-ok panicked _ m' h) in
        (key, at, threshold);
  }

  -- Whatever calls a new lifecycle receives over the set-up and the resharings of the crate, a panic of
  -- which counts as an error: the address of its material is that of its verifying key.
  pub lifecycle-Addressed :
      (cs : List (Call keccak resharing_protocols))
      → Addressed keccak resharing_protocols
          (ethereum_address_of synedrion keccak)
          (run keccak resharing_protocols new_lifecycle cs).material
  lifecycle-Addressed cs =
      run-Addressed keccak resharing_protocols (ethereum_address_of synedrion keccak)
        resharing-Lawful cs

  -- Over the resharings of the crate, a panic of which counts as an error, a key whose address is that of
  -- its verifying key, and a sound request: a refresh of the active and unlocked key succeeds exactly
  -- where its resharing returns, and a rotation in one call exactly where it may begin and its resharing
  -- returns. So the checks on what they returned never fail.
  pub lifecycle-resharing :
      (seed : Seed × Seed × Seed) (l : KeyLifecycle K (Holding X V Share Aux))
      (m : ThresholdKeyMaterial K (Holding X V Share Aux)) (request : TssRotationRequest) (now : ℕ)
      → l.state ≡ active
      → l.locked ≡ false
      → l.material ≡ some m
      → m.group_public_key.ethereum_address
        ≡ ethereum_address_of synedrion keccak m.group_public_key.verifying_key
      → Invariant.IsSound request
      → (is_ok (refresh keccak resharing_protocols seed l).0
          ≡ is_ok (resharing_protocols.refresh_via_resharing seed m))
        × (is_ok (rotate_with_request keccak resharing_protocols seed l request now).0 ≡ (
            is_ok (begin_rotation l request now).0
            && is_ok (
                resharing_protocols.rotation_via_resharing seed m request.new_participant_set
                  request.threshold)))
  lifecycle-resharing seed l m request now p q e a s =
      let address = ethereum_address_of synedrion keccak in
      (
        refresh-is_ok keccak resharing_protocols address resharing-Lawful seed l m p q e a,
        rotate-is_ok keccak resharing_protocols address resharing-Lawful seed l m request now e a
            s.threshold_positive s.threshold_fits,
      )

  returned-refresh :
      (seed : Seed × Seed × Seed) (l : KeyLifecycle K (Holding X V Share Aux))
      (m m' : ThresholdKeyMaterial K (Holding X V Share Aux))
      → l.state ≡ active
      → l.locked ≡ false
      → l.material ≡ some m
      → do_refresh_via_resharing synedrion keccak seed.0 seed.1 m ≡ some (ok m')
      → m'.group_public_key.verifying_key ≡ m.group_public_key.verifying_key
      → m'.group_public_key.ethereum_address ≡ m.group_public_key.ethereum_address
      → refresh keccak resharing_protocols seed l ≡ (ok tt, record l { material = some m' })
  unfolding refresh
  returned-refresh seed l m m' p q e e' key at = ground (
    arith,
    (synedrion.key_eq_iff m'.group_public_key.verifying_key m.group_public_key.verifying_key).1,
    (bytes_eq_iff m'.group_public_key.ethereum_address m.group_public_key.ethereum_address).1,
  )

  -- Over the resharings of the crate, with an active and unlocked key, whose address is that of the key: a
  -- refresh of which the resharing gives every participant a share of the key, and the run of the
  -- `AuxGen`, which is set up for their verifiers, an aux info, succeeds and changes nothing but the
  -- material, where there is a participant. The participants stay at their places, each with a share of the
  -- key.
  pub lifecycle_refreshes :
      (seed : Seed × Seed × Seed) (l : KeyLifecycle K (Holding X V Share Aux))
      (m : ThresholdKeyMaterial K (Holding X V Share Aux)) (p : Participant (Holding X V Share Aux))
      (ps : List (Participant (Holding X V Share Aux)))
      → Delivers synedrion seed.0 seed.1 m p
      → l.state ≡ active
      → l.locked ≡ false
      → l.material ≡ some m
      → m.group_public_key.ethereum_address
        ≡ ethereum_address_of synedrion keccak m.group_public_key.verifying_key
      → m.participants ≡ p ∷ ps
      → (m' : ThresholdKeyMaterial K (Holding X V Share Aux)) × (refresh keccak resharing_protocols
            seed l
          ≡ (ok tt, record l { material = some m' }))
        × SameSeats synedrion m.group_public_key.verifying_key m.participants m'.participants
  lifecycle_refreshes seed l m p ps d active_now unlocked e address some_one =
      let (m', done) = refresh_returns synedrion keccak seed.0 seed.1 m p ps d some_one in
      let (key, at, _, _, seats) = refresh-kept synedrion keccak seed.0 seed.1 m m' done in
      (m', returned-refresh seed l m m' active_now unlocked e done key (at ∙ sym address), seats)
