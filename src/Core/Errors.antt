-- ===== src/Core/Errors.antt =====
-- crates/keymesh-core/src/errors.rs: the error type that the crate's operations share.
use key_mesh.Prelude.{ℕ, ◌++◌}
use key_mesh.Prelude.Text.{Str, text, decimal}

pub data KeymeshError : Type 0 where
  invalid_input : Str → KeymeshError
  invalid_state_transition : (origin attempted : Str) → KeymeshError
  unauthorized : Str → KeymeshError
  not_found : Str → KeymeshError
  threshold_not_met : (required actual : ℕ) → KeymeshError
  duplicate_approval : Str → KeymeshError
  timelock_active : (remaining_seconds : ℕ) → KeymeshError
  expired : (expiry now : ℕ) → KeymeshError
  crypto_operation_failed : Str → KeymeshError

-- `Display::fmt`.
pub display : KeymeshError → Str
display (invalid_input msg) = text "invalid input: " ++ msg
display (invalid_state_transition origin attempted) =
    text "invalid state transition: " ++ (origin ++ (text " -> " ++ attempted))
display (unauthorized who) = text "unauthorized: " ++ who
display (not_found what) = text "not found: " ++ what
display (threshold_not_met required actual) =
    text "threshold not met: required " ++ (decimal required ++ (text ", got " ++ decimal actual))
display (duplicate_approval who) = text "duplicate approval: " ++ (who ++ text " already approved")
display (timelock_active remaining_seconds) =
    text "timelock active: " ++ (decimal remaining_seconds ++ text " seconds remaining")
display (expired expiry now) =
    text "transaction expired: expiry " ++ (decimal expiry ++ (text ", now " ++ decimal now))
display (crypto_operation_failed msg) = text "crypto operation failed: " ++ msg
