-- ===== src/Tss/RotationStatus.antt =====
-- crates/keymesh-tss/src/governance.rs: the status of a rotation request.
use key_mesh.Prelude.{Bool, true, false}
use key_mesh.Prelude.Text.{Str, text}

-- `nothing` is the source's `None`.
pub data TssRotationStatus : Type 0 where
  nothing pending quorum_reached executable resharing completed cancelled failed : TssRotationStatus

unfoldable pub rotation_status_eq : TssRotationStatus → TssRotationStatus → Bool
rotation_status_eq nothing nothing = true
rotation_status_eq pending pending = true
rotation_status_eq quorum_reached quorum_reached = true
rotation_status_eq executable executable = true
rotation_status_eq resharing resharing = true
rotation_status_eq completed completed = true
rotation_status_eq cancelled cancelled = true
rotation_status_eq failed failed = true
rotation_status_eq _ _ = false

-- `{:?}`.
unfoldable pub debug_rotation_status : TssRotationStatus → Str
debug_rotation_status nothing = text "None"
debug_rotation_status pending = text "Pending"
debug_rotation_status quorum_reached = text "QuorumReached"
debug_rotation_status executable = text "Executable"
debug_rotation_status resharing = text "Resharing"
debug_rotation_status completed = text "Completed"
debug_rotation_status cancelled = text "Cancelled"
debug_rotation_status failed = text "Failed"

unfoldable pub is_terminal : TssRotationStatus → Bool
is_terminal completed = true
is_terminal cancelled = true
is_terminal failed = true
is_terminal _ = false

unfoldable pub is_live : TssRotationStatus → Bool
is_live pending = true
is_live quorum_reached = true
is_live executable = true
is_live resharing = true
is_live _ = false
