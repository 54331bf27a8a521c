-- ===== src/Tests/Keys.antt =====
-- crates/keymesh-tss/src/lifecycle.rs on a key of three simulated participants.
use key_mesh.Prelude.{ℕ, ◌≡◌, ◌⊎◌, refl, true, false, List, [], ◌∷◌, some, replicate, arith}
use key_mesh.Prelude.Bytes.{bytes_eq}
use key_mesh.Prelude.Outcome.{is_ok}
use key_mesh.Tss.Governance.{
  TssRotationRequest, effective_status, is_executable, mark_resharing_with_time, mark_completed,
}
use key_mesh.Tss.RotationStatus.{quorum_reached, failed, rotation_status_eq}
use key_mesh.Tss.Key.{KeyLifecycle, new_lifecycle, active, rotating, retired, check_signing_allowed}
use key_mesh.Tss.Lifecycle.{
  dkg, refresh, apply_rotation, rotate_with_request, derive_key_id, compressed_verifying_key,
}
use key_mesh.Tss.RotationStart.{begin_rotation, group_key_check, threshold_checks, rotation_checks}
use key_mesh.Tss.Lifecycle.Invariant.{
  IsSound, Call, generates, refreshes, applies, rotates, step, run, new_lifecycle-IsSound,
}
use key_mesh.Tss.Lifecycle.Continuity.{Keeps, run-Keeps}
use key_mesh.Tss.Lifecycle.Rotation.{rotate-all_or_nothing}
use key_mesh.Tss.Lifecycle.Signing.{open_rotation_excludes}
use key_mesh.Tests.Parameters.{constant_hash, simulated, material_of}

-- A rotation to three participants, which may start from 5700 on.
abbrev request : TssRotationRequest
request = record {
  id = 1;
  wallet = replicate 20 9;
  old_participant_set_version = 1;
  new_participant_set = (b'A' ∷ []) ∷ (b'C' ∷ []) ∷ (b'D' ∷ []) ∷ [];
  threshold = 2;
  requested_by = b'a' ∷ [];
  governance_reference = [];
  created_at = 1_000;
  executable_at = some 5_700;
  quorum_required = 1;
  timelock_seconds = 3_600;
  approvals = (b'a' ∷ []) ∷ [];
  status = quorum_reached;
  group_public_key = replicate 33 5;
}

abbrev pub key : KeyLifecycle ℕ ℕ
key = record {
  state = active;
  material = some (material_of 4 2);
  participant_set_version = 1;
  key_id = replicate 32 0;
  group_key_bytes = some (replicate 33 5);
  locked = false;
}

abbrev open_key : KeyLifecycle ℕ ℕ
open_key = record key { state = rotating; locked = true }

abbrev retired_key : KeyLifecycle ℕ ℕ
retired_key = record key { state = retired }

pub key-IsSound : IsSound constant_hash simulated key
unfolding derive_key_id compressed_verifying_key
key-IsSound = (refl, (refl, refl))

open_key-IsSound : IsSound constant_hash simulated open_key
unfolding derive_key_id compressed_verifying_key
open_key-IsSound = (refl, (refl, refl))

abbrev rotation : List (Call constant_hash simulated)
rotation = rotates 7 request 5_700 ∷ refreshes 6 ∷ generates 4 ∷ []

new_lifecycle-IsSound_example :
    IsSound constant_hash simulated (run constant_hash simulated new_lifecycle rotation)
new_lifecycle-IsSound_example = new_lifecycle-IsSound constant_hash simulated rotation

rotation_runs : (run constant_hash simulated new_lifecycle rotation).participant_set_version ≡ 2
unfolding run step dkg refresh rotate_with_request begin_rotation rotation_checks group_key_check
    threshold_checks apply_rotation new_lifecycle is_executable effective_status rotation_status_eq
    mark_resharing_with_time mark_completed bytes_eq compressed_verifying_key
rotation_runs = refl

run-Keeps_example :
    Keeps constant_hash simulated
      (material_of 4 2).group_public_key
      (run constant_hash simulated key (rotates 7 request 5_700 ∷ [])).material
run-Keeps_example =
    run-Keeps constant_hash simulated (material_of 4 2).group_public_key key
      (rotates 7 request 5_700 ∷ []) key-IsSound (refl, refl)

-- On seed 0 the protocol fails, and the lifecycle is as it was.
rotation_fails : is_ok (rotate_with_request constant_hash simulated 0 key request 5_700).0 ≡ false
unfolding rotate_with_request begin_rotation rotation_checks group_key_check threshold_checks
    apply_rotation is_executable effective_status rotation_status_eq mark_resharing_with_time
    bytes_eq
rotation_fails = refl

rotate-all_or_nothing_example :
    ((rotate_with_request constant_hash simulated 0 key request 5_700).1 ≡ key)
    × (((rotate_with_request constant_hash simulated 0 key request 5_700).2 ≡ request)
        ⊎ ((rotate_with_request constant_hash simulated 0 key request 5_700).2.status ≡ failed))
rotate-all_or_nothing_example =
    (rotate-all_or_nothing constant_hash simulated 0 key request 5_700 key-IsSound).1 rotation_fails

-- Applying the rotation with another threshold leaves it open.
open_rotation_excludes_example :
    (is_ok (check_signing_allowed open_key 1) ≡ false)
    × (step constant_hash simulated open_key (applies 7 request 3) ≡ open_key)
open_rotation_excludes_example =
    open_rotation_excludes constant_hash simulated open_key (applies 7 request 3) 1 open_key-IsSound
      refl (λ (e : 3 ≡ 2). omega (arith, e))
