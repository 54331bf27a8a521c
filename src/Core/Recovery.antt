-- ===== src/Core/Recovery.antt =====
-- crates/keymesh-core/src/recovery/mod.rs: the guardian recovery state machine.
--
-- A method on `&mut self` returns the new request beside its result, on errors too. Addresses are
-- texts, and times are `u64` numbers of seconds: the sum in `approve` wraps at 2 ^ 64, as it does in a
-- release build. A call that would panic returns `none`.
pub mod Invariant
pub mod Transitions
pub mod Cases
pub mod History
pub mod Timelock
pub mod Identity
pub mod Refinement
pub mod Order
pub mod Completion
use Prim.Native.Nat.{bit_xor}
use mathlib.Core.List.{foldl}
use key_mesh.Prelude.{
  ℕ, ◌+◌, ◌-◌, ◌*◌, ◌%◌, ◌^◌, Bool, true, false, not, ◌&&◌, ◌||◌, List, [], ◌∷◌, ◌++◌, Option, none,
  some, leb, ltb, ◌==◌, if◌then◌else◌, length, replicate,
}
use key_mesh.Prelude.Bytes.{to_be_bytes, bytes_eq}
use key_mesh.Prelude.Members.{contains}
use key_mesh.Prelude.Text.{Str, text}
use key_mesh.Prelude.Outcome.{Result, ok, err, ◌>>=◌, ◌>>◌, fail_if}
use key_mesh.Core.Errors.{
  KeymeshError, invalid_input, invalid_state_transition, threshold_not_met, duplicate_approval,
  timelock_active,
}
use key_mesh.Core.Serialization.{
  ◌▷◌, new_encoder, into_bytes, write_u8, write_u64, write_raw, write_bytes,
}

-- `nothing` is the source's `None`.
pub data RecoveryStatus : Type 0 where
  nothing pending quorum_reached executable executed cancelled : RecoveryStatus

unfoldable pub status_eq : RecoveryStatus → RecoveryStatus → Bool
status_eq nothing nothing = true
status_eq pending pending = true
status_eq quorum_reached quorum_reached = true
status_eq executable executable = true
status_eq executed executed = true
status_eq cancelled cancelled = true
status_eq _ _ = false

-- `status as u8`.
unfoldable pub status_discriminant : RecoveryStatus → ℕ
status_discriminant nothing = 0
status_discriminant pending = 1
status_discriminant quorum_reached = 2
status_discriminant executable = 3
status_discriminant executed = 4
status_discriminant cancelled = 5

unfoldable pub is_terminal : RecoveryStatus → Bool
is_terminal executed = true
is_terminal cancelled = true
is_terminal _ = false

unfoldable pub is_live : RecoveryStatus → Bool
is_live pending = true
is_live quorum_reached = true
is_live executable = true
is_live _ = false

pub data Action : Type 0 where
  initiates approves cancels finalizes : Action

unfoldable pub allows : RecoveryStatus → Action → Bool
unfolding status_eq is_live
allows s approves = status_eq s pending
allows s cancels = is_live s
allows s finalizes = status_eq s executable
allows s initiates = not (is_live s)

-- `Display::fmt`, which the errors quote.
unfoldable pub status_name : RecoveryStatus → Str
status_name nothing = text "none"
status_name pending = text "pending"
status_name quorum_reached = text "quorum_reached"
status_name executable = text "executable"
status_name executed = text "executed"
status_name cancelled = text "cancelled"

abbrev pub min_timelock_seconds : ℕ
min_timelock_seconds = 3_600

pub record RecoveryRequest : Type 0 where
  pub id : ℕ
  pub wallet : Str
  pub initiator : Str
  pub replaced_device : Option Str
  pub new_device : Str
  pub initiated_at : ℕ
  pub execute_after : Option ℕ
  pub quorum_snapshot : ℕ
  pub timelock_snapshot_seconds : ℕ
  pub approvals : List Str
  pub status : RecoveryStatus

abbrev pub replaces_itself : Option Str → Str → Bool
replaces_itself none new_device = false
replaces_itself (some old) new_device = bytes_eq old new_device

unfoldable pub initiate :
    (id : ℕ) (wallet initiator : Str) (replaced_device : Option Str) (new_device : Str)
    (active_guardian_count quorum_snapshot timelock_snapshot_seconds now_seconds : ℕ)
    → Result RecoveryRequest KeymeshError
initiate id wallet initiator replaced_device new_device active_guardian_count quorum_snapshot
      timelock_snapshot_seconds now_seconds =
    do
      fail_if (length new_device == 0) (invalid_input (text "replacement device must not be empty"))
      fail_if (replaces_itself replaced_device new_device)
          (invalid_input (text "replacement device must differ from the device it replaces"))
      fail_if (quorum_snapshot == 0)
          (invalid_input (text "recovery threshold must be greater than zero"))
      fail_if (ltb active_guardian_count quorum_snapshot)
          (threshold_not_met quorum_snapshot active_guardian_count)
      fail_if (ltb timelock_snapshot_seconds min_timelock_seconds)
          (timelock_active (min_timelock_seconds - timelock_snapshot_seconds))
      ok (record {
        id = id;
        wallet = wallet;
        initiator = initiator;
        replaced_device = replaced_device;
        new_device = new_device;
        initiated_at = now_seconds;
        execute_after = none;
        quorum_snapshot = quorum_snapshot;
        timelock_snapshot_seconds = timelock_snapshot_seconds;
        approvals = [];
        status = pending;
      })

-- The status after lazy promotion.
promoted : RecoveryStatus → Option ℕ → ℕ → RecoveryStatus
promoted quorum_reached (some execute_after) now_seconds =
    if leb execute_after now_seconds then executable else quorum_reached
promoted s _ now_seconds = s

unfoldable pub effective_status : RecoveryRequest → ℕ → RecoveryStatus
unfolding promoted
effective_status r now_seconds = promoted r.status r.execute_after now_seconds

-- The request with one more approval; at the quorum its timelock starts.
pub push_approval : RecoveryRequest → Str → ℕ → RecoveryRequest
push_approval r guardian now_seconds =
    let r' = record r { approvals = r.approvals ++ (guardian ∷ []) } in
    if leb r.quorum_snapshot (length r'.approvals)
    then record r' {
      status = quorum_reached;
      execute_after = some ((now_seconds + r.timelock_snapshot_seconds) % 2 ^ 64);
    }
    else r'

unfoldable pub approve :
    RecoveryRequest → Str → ℕ → Result (Unit {0}) KeymeshError × RecoveryRequest
unfolding status_eq push_approval
approve r guardian now_seconds =
    if not (status_eq r.status pending)
    then (err (invalid_state_transition (status_name r.status) (text "approve")), r)
    else if contains guardian r.approvals
    then (err (duplicate_approval guardian), r)
    else (ok tt, push_approval r guardian now_seconds)

unfoldable pub cancel : RecoveryRequest → Result (Unit {0}) KeymeshError × RecoveryRequest
unfolding allows
cancel r =
    if not (allows r.status cancels)
    then (err (invalid_state_transition (status_name r.status) (text "cancel")), r)
    else (ok tt, record r { status = cancelled })

-- `saturating_sub` is the subtraction of ℕ. `expect` panics where no time is set.
locked : Option ℕ → ℕ → Option KeymeshError
locked none now_seconds = none
locked (some execute_after) now_seconds = some (timelock_active (execute_after - now_seconds))

-- `none` is the panic of `expect("execute_after set when QuorumReached")`.
finalize_as :
    RecoveryStatus
    → RecoveryRequest
    → ℕ
    → Option (Result (Option Str × Str) KeymeshError × RecoveryRequest)
finalize_as executable r now_seconds =
    some (ok (r.replaced_device, r.new_device), record r { status = executed })
finalize_as quorum_reached r now_seconds = elim (locked r.execute_after now_seconds) [
  | none ↦ none
  | some e ↦ some (err e, r)
]
finalize_as other r now_seconds =
    some (err (invalid_state_transition (status_name other) (text "finalize")), r)

unfoldable pub finalize :
    RecoveryRequest → ℕ → Option (Result (Option Str × Str) KeymeshError × RecoveryRequest)
unfolding effective_status finalize_as locked
finalize r now_seconds = finalize_as (effective_status r now_seconds) r now_seconds
