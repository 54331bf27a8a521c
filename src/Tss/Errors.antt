-- ===== src/Tss/Errors.antt =====
-- crates/keymesh-tss/src/errors.rs: the error type of the threshold signing crate.
use key_mesh.Prelude.{ℕ, ◌++◌}
use key_mesh.Prelude.Text.{Str, text, decimal}

pub data TssError : Type 0 where
  invalid_threshold dkg_failed signing_failed session_mismatch : Str → TssError
  insufficient_shares : (have need : ℕ) → TssError
  duplicate_participant unknown_participant : TssError
  aborted lifecycle lifecycle_locked : Str → TssError
  stale_version : (expected got : ℕ) → TssError
  retired governance refresh_failed rotation_failed invalid_participant_set : Str → TssError

-- `to_string`, from the `#[error(...)]` attributes.
pub error_text : TssError → Str
error_text (invalid_threshold msg) = text "invalid threshold: " ++ msg
error_text (dkg_failed msg) = text "DKG failed: " ++ msg
error_text (signing_failed msg) = text "signing failed: " ++ msg
error_text (session_mismatch msg) = text "session binding mismatch: " ++ msg
error_text (insufficient_shares have need) =
    text "insufficient shares: have " ++ (decimal have ++ (text ", need " ++ decimal need))
error_text duplicate_participant = text "duplicate participant"
error_text unknown_participant = text "unknown participant"
error_text (aborted msg) = text "aborted: " ++ msg
error_text (lifecycle msg) = text "lifecycle error: " ++ msg
error_text (lifecycle_locked msg) = text "lifecycle locked: " ++ msg
error_text (stale_version expected got) =
    text "stale participant set version: expected "
    ++ (decimal expected ++ (text ", got " ++ decimal got))
error_text (retired msg) = text "retired: " ++ msg
error_text (governance msg) = text "governance error: " ++ msg
error_text (refresh_failed msg) = text "refresh failed: " ++ msg
error_text (rotation_failed msg) = text "rotation failed: " ++ msg
error_text (invalid_participant_set msg) = text "invalid participant set: " ++ msg
