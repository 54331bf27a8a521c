-- ===== src/Tss/RotationStart.antt =====
-- crates/keymesh-tss/src/lifecycle.rs: the checks that open a rotation.
use key_mesh.Prelude.{ℕ, true, not, ◌&&◌, ◌||◌, List, ◌++◌, Option, none, some, ltb, ◌==◌, length}
use key_mesh.Prelude.Bytes.{bytes_eq}
use key_mesh.Prelude.Text.{text, decimal, hex_encode}
use key_mesh.Prelude.Outcome.{Result, ok, err, ◌>>◌, fail_if}
use key_mesh.Tss.Errors.{
  TssError, invalid_threshold, lifecycle, lifecycle_locked, stale_version, governance,
}
use key_mesh.Tss.Governance.{TssRotationRequest, is_executable, debug_time}
use key_mesh.Tss.RotationStatus.{debug_rotation_status}
use key_mesh.Tss.Key.{rotating, debug_key_state, can_mutate, ThresholdKeyMaterial, KeyLifecycle}

-- The checks of `begin_rotation`, in their order; a change of the threshold has a check of its own.
unfoldable pub threshold_checks :
    {K H : Type 0}
    → Option (ThresholdKeyMaterial K H)
    → TssRotationRequest
    → Result (Unit {0}) TssError
threshold_checks none request = ok tt
threshold_checks (some mat) request = do
  fail_if
      (not (request.threshold == mat.threshold)
        && (request.threshold == 0 || ltb (length request.new_participant_set) request.threshold))
      (invalid_threshold (
        text "new threshold "
        ++ (decimal request.threshold
            ++ (text " invalid for new n=" ++ decimal (length request.new_participant_set)))))
  fail_if (ltb (length request.new_participant_set) request.threshold) (
      invalid_threshold (
        text "new set size "
        ++ (decimal (length request.new_participant_set)
            ++ (text " < threshold " ++ decimal request.threshold))))
  ok tt

unfoldable pub group_key_check : Option (List ℕ) → List ℕ → Result (Unit {0}) TssError
group_key_check none requested = ok tt
group_key_check (some gkb) requested = do
  fail_if (not (bytes_eq gkb requested)) (
      governance (
        text "rotation group key mismatch: expected \""
        ++ (hex_encode gkb ++ (text "\" got \"" ++ (hex_encode requested ++ text "\"")))))
  ok tt

unfoldable pub rotation_checks :
    {K H : Type 0} → KeyLifecycle K H → TssRotationRequest → ℕ → Result (Unit {0}) TssError
unfolding debug_key_state debug_rotation_status debug_time
rotation_checks l request now_seconds = do
  fail_if (not (can_mutate l.state))
      (lifecycle (text "begin_rotation only from Active, got " ++ debug_key_state l.state))
  fail_if l.locked (lifecycle_locked (text "concurrent lifecycle operation"))
  fail_if (not (request.old_participant_set_version == l.participant_set_version))
      (stale_version l.participant_set_version request.old_participant_set_version)
  group_key_check l.group_key_bytes request.group_public_key
  fail_if (not (is_executable request now_seconds)) (
      governance (
        text "rotation not executable at "
        ++ (decimal now_seconds
            ++ (text ", status "
                ++ (debug_rotation_status request.status
                    ++ (text " executable_at " ++ debug_time request.executable_at))))))
  threshold_checks l.material request

unfoldable pub begin_rotation :
    {K H : Type 0}
    → KeyLifecycle K H
    → TssRotationRequest
    → ℕ
    → Result (Unit {0}) TssError × KeyLifecycle K H
unfolding rotation_checks
begin_rotation l request now_seconds = elim (rotation_checks l request now_seconds) [
  | ok _ ↦ (ok tt, record l { state = rotating; locked = true })
  | err e ↦ (err e, l)
]
