-- ===== src/Tests/Provision.antt =====
-- The lifecycle of crates/keymesh-tss/src/lifecycle.rs over its own resharings.
use key_mesh.Prelude.{◌≡◌, refl, true, false, ◌&&◌, [], ◌∷◌, some, replicate, ℕ}
use key_mesh.Prelude.Bytes.{bytes_eq}
use key_mesh.Prelude.Outcome.{is_ok}
use key_mesh.Tss.Errors.{rotation_failed}
use key_mesh.Tss.Governance.{is_executable, effective_status}
use key_mesh.Tss.Key.{KeyLifecycle, Protocols, active, new_lifecycle}
use key_mesh.Tss.RotationStatus.{rotation_status_eq}
use key_mesh.Tss.RotationStart.{begin_rotation, rotation_checks, group_key_check, threshold_checks}
use key_mesh.Tss.Lifecycle.{refresh, rotate_with_request}
use key_mesh.Tss.Lifecycle.Invariant.{run, generates, refreshes}
use key_mesh.Tss.Lifecycle.Lawful.{Addressed}
use key_mesh.Tss.Synedrion.{Holding, ethereum_address_of}
use key_mesh.Tss.Synedrion.Provision.{resharing_protocols, lifecycle-Addressed, lifecycle-resharing}
use key_mesh.Tests.Parameters.{constant_hash}
use key_mesh.Tests.Governed.{decided, decided-IsSound}
use key_mesh.Tests.Resharing.{honest, key}

abbrev pub provided : Protocols ℕ (Holding ℕ ℕ ℕ (Unit {0})) (ℕ × ℕ × ℕ)
provided = resharing_protocols honest constant_hash (rotation_failed [])

abbrev pub active_key : KeyLifecycle ℕ (Holding ℕ ℕ ℕ (Unit {0}))
active_key = record {
  state = active;
  material = some (key 2);
  participant_set_version = 1;
  key_id = replicate 32 0;
  group_key_bytes = some (replicate 33 5);
  locked = false;
}

lifecycle-Addressed_example :
    Addressed constant_hash provided
      (ethereum_address_of honest constant_hash)
      (run constant_hash provided new_lifecycle
        (refreshes (4, 5, 6) ∷ generates (1, 2, 3) ∷ [])).material
lifecycle-Addressed_example =
    lifecycle-Addressed honest constant_hash (rotation_failed [])
      (refreshes (4, 5, 6) ∷ generates (1, 2, 3) ∷ [])

-- The rotation may begin, so that its run decides.
rotation_may_begin : is_ok (begin_rotation active_key decided 5_700).0 ≡ true
unfolding begin_rotation rotation_checks group_key_check threshold_checks is_executable
    effective_status rotation_status_eq bytes_eq
rotation_may_begin = refl

lifecycle-resharing_example :
    (is_ok (refresh constant_hash provided (4, 5, 6) active_key).0
      ≡ is_ok (provided.refresh_via_resharing (4, 5, 6) (key 2)))
    × (is_ok (rotate_with_request constant_hash provided (4, 5, 6) active_key decided 5_700).0 ≡ (
        is_ok (begin_rotation active_key decided 5_700).0
        && is_ok (provided.rotation_via_resharing (4, 5, 6) (key 2) decided.new_participant_set 2)))
unfolding ethereum_address_of
lifecycle-resharing_example =
    lifecycle-resharing honest constant_hash (rotation_failed []) (4, 5, 6) active_key (key 2)
      decided 5_700 refl refl refl refl decided-IsSound
