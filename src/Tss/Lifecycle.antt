-- ===== src/Tss/Lifecycle.antt =====
-- crates/keymesh-tss/src/lifecycle.rs: the life of a threshold key, from DKG over refreshes and rotations
-- to its retirement.
--
-- A method on `&mut self` takes the lifecycle and returns the new one beside its result, on errors too;
-- `rotate_with_request` also returns the request. What the protocols of synedrion do is behind the
-- record `Protocols`, which `dkg`, `refresh` and `apply_rotation` use with fresh randomness. A verifying
-- key and what a participant holds (signer, verifier, share, aux info) are types of their own. A version
-- is a `u64`, whose increment wraps as in a release build.
pub mod Invariant
pub mod Continuity
pub mod Rotation
pub mod Governed
pub mod Lawful
pub mod Signing
use key_mesh.Prelude.{
  ℕ, ◌+◌, ◌%◌, ◌^◌, ◌≡◌, ◌↔◌, Bool, true, false, not, ◌&&◌, ◌||◌, List, [], ◌∷◌, ◌++◌, map, Option,
  none, some, ltb, ◌==◌, if◌then◌else◌, length, replicate,
}
use key_mesh.Prelude.Bytes.{to_be_bytes, bytes_eq}
use key_mesh.Prelude.Keccak.{Keccak}
use key_mesh.Prelude.Text.{Str, text, decimal, hex_encode}
use key_mesh.Prelude.Outcome.{Result, ok, err, ◌>>=◌, ◌>>◌, fail_if}
use key_mesh.Tss.Errors.{
  TssError, error_text, invalid_threshold, lifecycle, lifecycle_locked, stale_version, governance,
  refresh_failed, rotation_failed,
}
use key_mesh.Tss.Governance.{
  TssRotationRequest, is_executable, mark_resharing_with_time, mark_completed, mark_failed,
  debug_time,
}
use key_mesh.Tss.RotationStatus.{debug_rotation_status}
use key_mesh.Tss.Key.{
  TssKeyState, created, active, refreshing, rotating, retired, debug_key_state, is_retired,
  can_sign, can_mutate, is_created, is_rotating, Participant, GroupPublicKey, ThresholdKeyMaterial,
  Protocols, KeyLifecycle,
}
use key_mesh.Tss.RotationStart.{threshold_checks, group_key_check, rotation_checks, begin_rotation}

-- The two assignments before every return that gives the lifecycle back.
abbrev pub settled : {K H : Type 0} → KeyLifecycle K H → KeyLifecycle K H
settled l = record l { state = active; locked = false }

module _ {K H Seed : Type 0} (keccak : Keccak) (protocols : Protocols K H Seed) where
  unfoldable pub compressed_verifying_key : K → List ℕ
  compressed_verifying_key vk = protocols.encoded_point vk true

  unfoldable pub derive_key_id : GroupPublicKey K → (threshold version : ℕ) → List ℕ
  derive_key_id group_key threshold version = keccak.hash (
      protocols.encoded_point group_key.verifying_key false
      ++ (text "synedrion/0.3-cggmp24" ++ (to_be_bytes 8 threshold ++ to_be_bytes 8 version)))

  abbrev generated :
      KeyLifecycle K H
      → Result (ThresholdKeyMaterial K H) TssError
      → Result (ThresholdKeyMaterial K H) TssError × KeyLifecycle K H
  generated l (err e) = (err e, l)
  generated l (ok mat) = (
    ok mat,
    record l {
      material = some mat;
      state = active;
      participant_set_version = 1;
      key_id = derive_key_id mat.group_public_key mat.threshold 1;
      group_key_bytes = some (compressed_verifying_key mat.group_public_key.verifying_key);
    },
  )

  unfoldable pub dkg :
      Seed → KeyLifecycle K H → Result (ThresholdKeyMaterial K H) TssError × KeyLifecycle K H
  unfolding debug_key_state
  dkg seed l =
      if not (is_created l.state)
      then (err (lifecycle (text "dkg only from Created, got " ++ debug_key_state l.state)), l)
      else if l.locked
      then (err (lifecycle_locked (text "lifecycle locked")), l)
      else generated l (protocols.setup_2of3 seed)

  -- The key and the address have to stay the same.
  abbrev refreshed :
      ThresholdKeyMaterial K H
      → KeyLifecycle K H
      → Result (ThresholdKeyMaterial K H) TssError
      → Result (Unit {0}) TssError × KeyLifecycle K H
  refreshed mat l (err e) = (err e, settled l)
  refreshed mat l (ok new_mat) =
      if not
        (protocols.key_eq new_mat.group_public_key.verifying_key mat.group_public_key.verifying_key)
      then (
        err (
            refresh_failed (
              text "group key changed during refresh "
              ++ (0xe2 ∷ 0x80 ∷ 0x94 ∷ text " must remain same"))),
        settled l,
      )
      else if not
          (bytes_eq new_mat.group_public_key.ethereum_address mat.group_public_key.ethereum_address)
      then (err (refresh_failed (text "ethereum address changed during refresh")), settled l)
      else (ok tt, settled (record l { material = some new_mat }))

  unfoldable pub refresh : Seed → KeyLifecycle K H → Result (Unit {0}) TssError × KeyLifecycle K H
  unfolding debug_key_state
  refresh seed l =
      if not (can_mutate l.state)
      then (err (lifecycle (text "refresh only from Active, got " ++ debug_key_state l.state)), l)
      else if l.locked
      then (err (lifecycle_locked (text "concurrent lifecycle operation")), l)
      else elim l.material [
        | none ↦ (err (lifecycle (text "no material to refresh")), l)
        | some mat ↦
            refreshed mat (record l { state = refreshing; locked = true })
              (protocols.refresh_via_resharing seed mat)
      ]

  -- The key, the address and the threshold have to be what they are meant to be.
  abbrev rotated :
      ThresholdKeyMaterial K H
      → KeyLifecycle K H
      → (new_threshold : ℕ) → Result (ThresholdKeyMaterial K H) TssError
      → Result (Unit {0}) TssError × KeyLifecycle K H
  rotated mat l new_threshold (err e) = (err e, settled l)
  rotated mat l new_threshold (ok new_mat) =
      let new_version = (l.participant_set_version + 1) % 2 ^ 64 in
      if not
        (protocols.key_eq new_mat.group_public_key.verifying_key mat.group_public_key.verifying_key)
      then (
        err (rotation_failed (text "group key unexpectedly changed during resharing")),
        settled l,
      )
      else if not
          (bytes_eq new_mat.group_public_key.ethereum_address mat.group_public_key.ethereum_address)
      then (err (rotation_failed (text "ethereum address changed during rotation")), settled l)
      else if not (new_mat.threshold == new_threshold)
      then (
        err (
            rotation_failed (
              text "new threshold "
              ++ (decimal new_mat.threshold ++ (text " != expected " ++ decimal new_threshold)))),
        settled l,
      )
      else (
        ok tt,
        settled (record l {
          material = some new_mat;
          participant_set_version = new_version;
          key_id = derive_key_id new_mat.group_public_key new_mat.threshold new_version;
        }),
      )

  unfoldable pub apply_rotation :
      Seed
      → KeyLifecycle K H
      → TssRotationRequest
      → (new_threshold : ℕ) → Result (Unit {0}) TssError × KeyLifecycle K H
  unfolding debug_key_state
  apply_rotation seed l request new_threshold =
      if not (is_rotating l.state)
      then (
        err (lifecycle (text "apply_rotation only from Rotating, got " ++ debug_key_state l.state)),
        l,
      )
      else elim l.material [
        | none ↦ (err (lifecycle (text "no material")), l)
        | some old_mat ↦
            if not (new_threshold == request.threshold)
            then (
              err (
                  invalid_threshold (
                    text "apply threshold "
                    ++ (decimal new_threshold
                        ++ (text " != request " ++ decimal request.threshold)))),
              l,
            )
            else if new_threshold == 0 || ltb (length request.new_participant_set) new_threshold
            then (
              err (
                  invalid_threshold (
                    text "invalid new threshold "
                    ++ (decimal new_threshold
                        ++ (text " for n=" ++ decimal (length request.new_participant_set))))),
              settled l,
            )
            else rotated old_mat l new_threshold (
                protocols.rotation_via_resharing seed old_mat request.new_participant_set
                  new_threshold)
      ]

  -- The lifecycle and the request that a rotation leaves, beside its result.
  abbrev Rotation : Type 0
  Rotation = Result (Unit {0}) TssError × KeyLifecycle K H × TssRotationRequest

  abbrev closed : KeyLifecycle K H → Result (Unit {0}) TssError × TssRotationRequest → Rotation
  closed l (ok _, request) = (ok tt, l, request)
  closed l (err e, request) = (err (governance (error_text e)), l, request)

  abbrev applied : TssRotationRequest → Result (Unit {0}) TssError × KeyLifecycle K H → Rotation
  applied request (ok _, l) = closed l (mark_completed request)
  applied request (err e, l) = (err e, l, (mark_failed request).1)

  abbrev marked :
      Seed → KeyLifecycle K H → Result (Unit {0}) TssError × TssRotationRequest → Rotation
  marked seed l (ok _, request) = applied request (apply_rotation seed l request request.threshold)
  marked seed l (err e, request) = (err (governance (error_text e)), l, request)

  abbrev begun :
      Seed → TssRotationRequest → ℕ → Result (Unit {0}) TssError × KeyLifecycle K H → Rotation
  begun seed request now_seconds (ok _, l) =
      marked seed l (mark_resharing_with_time request now_seconds)
  begun seed request now_seconds (err e, l) = (err e, l, request)

  unfoldable pub rotate_with_request : Seed → KeyLifecycle K H → TssRotationRequest → ℕ → Rotation
  rotate_with_request seed l request now_seconds =
      begun seed request now_seconds (begin_rotation l request now_seconds)
