-- ===== src/Tss/Governance.antt =====
-- crates/keymesh-tss/src/governance.rs: the governed rotation of the signing participants.
--
-- A method on `&mut self` returns the new request beside its result, on errors too. Times are `u64`
-- numbers of seconds, and the sum in `approve` wraps at 2 ^ 64, as it does in a release build; byte
-- arrays are lists, and a `usize` is 64 bits wide.
pub mod Invariant
pub mod Transitions
pub mod Timelock
pub mod Canonical
pub mod Approvals
pub mod Refinement
pub mod Completion
use key_mesh.Prelude.{
  ℕ, ◌+◌, ◌%◌, ◌^◌, Bool, true, false, not, ◌&&◌, ◌||◌, List, [], ◌∷◌, ◌++◌, Option, none, some,
  leb, ltb, ◌==◌, if◌then◌else◌, length,
}
use key_mesh.Prelude.Bytes.{to_be_bytes}
use key_mesh.Prelude.Members.{contains, hash_set}
use key_mesh.Prelude.Text.{Str, text, decimal}
use key_mesh.Prelude.Outcome.{Result, ok, err, ◌>>=◌, ◌>>◌, fail_if}
use key_mesh.Tss.Errors.{TssError, invalid_threshold, invalid_participant_set, governance}
use key_mesh.Tss.RotationStatus.{
  TssRotationStatus, nothing, pending, quorum_reached, executable, resharing, completed, cancelled,
  failed, rotation_status_eq, debug_rotation_status, is_terminal, is_live,
}

abbrev pub min_timelock_seconds : ℕ
min_timelock_seconds = 3_600

pub record TssRotationRequest : Type 0 where
  pub id : ℕ
  pub wallet : List ℕ
  pub old_participant_set_version : ℕ
  pub new_participant_set : List Str
  pub threshold : ℕ
  pub requested_by : Str
  pub governance_reference : Str
  pub created_at : ℕ
  pub executable_at : Option ℕ
  pub quorum_required : ℕ
  pub timelock_seconds : ℕ
  pub approvals : List Str
  pub status : TssRotationStatus
  pub group_public_key : List ℕ

unfoldable pub initiate :
    (id : ℕ) (wallet : List ℕ) (old_participant_set_version : ℕ) (new_participant_set : List Str)
    (threshold : ℕ) (requested_by governance_reference : Str) (group_public_key : List ℕ)
    (active_guardian_count quorum_required timelock_seconds now_seconds : ℕ)
    → Result TssRotationRequest TssError
initiate id wallet old_participant_set_version new_participant_set threshold requested_by
      governance_reference group_public_key active_guardian_count quorum_required timelock_seconds
      now_seconds =
    do
      fail_if (length new_participant_set == 0)
          (invalid_participant_set (text "new participant set must not be empty"))
      fail_if (threshold == 0 || ltb (length new_participant_set) threshold) (
          invalid_threshold (
            text "threshold "
            ++ (decimal threshold
                ++ (text " invalid for n=" ++ decimal (length new_participant_set)))))
      fail_if (not (length (hash_set new_participant_set) == length new_participant_set))
          (invalid_participant_set (text "duplicate participant in new set"))
      fail_if (quorum_required == 0) (governance (text "quorum must be >0"))
      fail_if (ltb active_guardian_count quorum_required) (
          governance (
            text "quorum "
            ++ (decimal quorum_required
                ++ (text " unsatisfiable with "
                    ++ (decimal active_guardian_count ++ text " guardians")))))
      fail_if (ltb timelock_seconds min_timelock_seconds) (
          governance (
            text "timelock "
            ++ (decimal timelock_seconds
                ++ (text "s below minimum " ++ (decimal min_timelock_seconds ++ text "s")))))
      fail_if (length requested_by == 0) (governance (text "requested_by must not be empty"))
      ok (record {
        id = id;
        wallet = wallet;
        old_participant_set_version = old_participant_set_version;
        new_participant_set = new_participant_set;
        threshold = threshold;
        requested_by = requested_by;
        governance_reference = governance_reference;
        created_at = now_seconds;
        executable_at = none;
        quorum_required = quorum_required;
        timelock_seconds = timelock_seconds;
        approvals = [];
        status = pending;
        group_public_key = group_public_key;
      })

-- Whether the timelock has elapsed; never where no time is set.
elapsed : Option ℕ → ℕ → Bool
elapsed none now_seconds = false
elapsed (some exec) now_seconds = leb exec now_seconds

unfoldable pub effective_status : TssRotationRequest → ℕ → TssRotationStatus
unfolding rotation_status_eq elapsed
effective_status r now_seconds =
    if rotation_status_eq r.status quorum_reached && elapsed r.executable_at now_seconds
    then executable
    else r.status

unfoldable pub is_executable : TssRotationRequest → ℕ → Bool
unfolding effective_status rotation_status_eq
is_executable r now_seconds = rotation_status_eq (effective_status r now_seconds) executable

-- The request with one more approval; at the quorum its timelock starts.
push_approval : TssRotationRequest → Str → ℕ → TssRotationRequest
push_approval r guardian now_seconds =
    let r' = record r { approvals = r.approvals ++ (guardian ∷ []) } in
    if leb r.quorum_required (length r'.approvals)
    then record r' {
      status = quorum_reached;
      executable_at = some ((now_seconds + r.timelock_seconds) % 2 ^ 64);
    }
    else r'

unfoldable pub approve :
    TssRotationRequest → Str → ℕ → Result (Unit {0}) TssError × TssRotationRequest
unfolding rotation_status_eq debug_rotation_status push_approval
approve r guardian now_seconds =
    if not (rotation_status_eq r.status pending)
    then (
      err (governance (text "can only approve Pending, got " ++ debug_rotation_status r.status)),
      r,
    )
    else if contains guardian r.approvals
    then (err (governance (text "duplicate approval " ++ guardian)), r)
    else (ok tt, push_approval r guardian now_seconds)

unfoldable pub cancel : TssRotationRequest → Result (Unit {0}) TssError × TssRotationRequest
unfolding is_live debug_rotation_status
cancel r =
    if not (is_live r.status)
    then (err (governance (text "cannot cancel terminal " ++ debug_rotation_status r.status)), r)
    else (ok tt, record r { status = cancelled })

unfoldable pub mark_resharing : TssRotationRequest → Result (Unit {0}) TssError × TssRotationRequest
unfolding rotation_status_eq debug_rotation_status
mark_resharing r =
    if not (rotation_status_eq r.status executable)
      && not (rotation_status_eq r.status quorum_reached)
    then (
      err (governance (text "rotation not executable, status " ++ debug_rotation_status r.status)),
      r,
    )
    else (ok tt, record r { status = resharing })

-- `{:?}` of an `Option<u64>`.
unfoldable pub debug_time : Option ℕ → Str
debug_time none = text "None"
debug_time (some exec) = text "Some(" ++ (decimal exec ++ text ")")

unfoldable pub mark_resharing_with_time :
    TssRotationRequest → ℕ → Result (Unit {0}) TssError × TssRotationRequest
unfolding effective_status rotation_status_eq debug_rotation_status debug_time
mark_resharing_with_time r now_seconds =
    if not (rotation_status_eq (effective_status r now_seconds) executable)
    then (
      err (
          governance (
            text "timelock not elapsed: status "
            ++ (debug_rotation_status r.status
                ++ (text " vs executable_at "
                    ++ (debug_time r.executable_at ++ (text " now " ++ decimal now_seconds)))))),
      r,
    )
    else (ok tt, record r { status = resharing })

unfoldable pub mark_completed : TssRotationRequest → Result (Unit {0}) TssError × TssRotationRequest
unfolding rotation_status_eq debug_rotation_status
mark_completed r =
    if not (rotation_status_eq r.status resharing)
    then (
      err (
          governance
            (text "can only complete from Resharing, got " ++ debug_rotation_status r.status)),
      r,
    )
    else (ok tt, record r { status = completed })

unfoldable pub mark_failed : TssRotationRequest → Result (Unit {0}) TssError × TssRotationRequest
unfolding rotation_status_eq debug_rotation_status
mark_failed r =
    if not (rotation_status_eq r.status resharing)
    then (
      err (
          governance (text "can only fail from Resharing, got " ++ debug_rotation_status r.status)),
      r,
    )
    else (ok tt, record r { status = failed })
