-- ===== src/Tss/Governance/Transitions.antt =====
-- The status table of a rotation request in crates/keymesh-tss/src/governance.rs.
use key_mesh.Prelude.{◌≡◌, refl, Bool, true, false, not, ◌&&◌, ◌||◌, List, [], ◌∷◌, arith}
use key_mesh.Prelude.Members.{contains}
use key_mesh.Prelude.Outcome.{Result, is_ok}
use key_mesh.Tss.Errors.{TssError}
use key_mesh.Tss.Governance.{
  TssRotationRequest, approve, cancel, mark_resharing, mark_resharing_with_time, mark_completed,
  mark_failed, is_executable,
}
use key_mesh.Tss.RotationStatus.{
  pending, quorum_reached, executable, resharing, rotation_status_eq, is_terminal, is_live,
}
use key_mesh.Tss.Governance.Invariant.{Call, step, run}

-- What each call of the request does to the status it finds, and when it does nothing.
abbrev attempt : TssRotationRequest → Call → Result (Unit {0}) TssError
attempt r (Call.approves_by g now) = (approve r g now).0
attempt r Call.cancels_now = (cancel r).0
attempt r Call.reshares_now = (mark_resharing r).0
attempt r (Call.reshares_at now) = (mark_resharing_with_time r now).0
attempt r Call.completes_now = (mark_completed r).0
attempt r Call.fails_now = (mark_failed r).0

-- When a call succeeds.
abbrev pub admitted : TssRotationRequest → Call → Bool
admitted r (Call.approves_by g now) =
    rotation_status_eq r.status pending && not (contains g r.approvals)
admitted r Call.cancels_now = is_live r.status
admitted r Call.reshares_now =
    rotation_status_eq r.status executable || rotation_status_eq r.status quorum_reached
admitted r (Call.reshares_at now) = is_executable r now
admitted r Call.completes_now = rotation_status_eq r.status resharing
admitted r Call.fails_now = rotation_status_eq r.status resharing

-- A call succeeds exactly when the table admits it, and one that fails leaves the request as it was.
pub attempt-admitted :
    (r : TssRotationRequest) (c : Call)
    → (is_ok (attempt r c) ≡ admitted r c) × (is_ok (attempt r c) ≡ false → step r c ≡ r)
unfolding approve cancel mark_resharing mark_resharing_with_time mark_completed mark_failed step
    is_executable
attempt-admitted r (Call.approves_by g now) = (ground arith, ground arith)
attempt-admitted r Call.cancels_now = (ground arith, ground arith)
attempt-admitted r Call.reshares_now = (ground arith, ground arith)
attempt-admitted r (Call.reshares_at now) = (ground arith, ground arith)
attempt-admitted r Call.completes_now = (ground arith, ground arith)
attempt-admitted r Call.fails_now = (ground arith, ground arith)

terminal-step : (r : TssRotationRequest) (c : Call) → is_terminal r.status ≡ true → step r c ≡ r
unfolding step approve cancel mark_resharing mark_resharing_with_time mark_completed mark_failed
    is_terminal
terminal-step r c h = ground arith

-- No sequence of calls changes a request that is completed, cancelled or failed.
pub finished_frozen :
    (r : TssRotationRequest) (cs : List Call) → is_terminal r.status ≡ true → run r cs ≡ r
unfolding run
finished_frozen r [] h = refl
finished_frozen r (c ∷ cs) h = rw (finished_frozen r cs h) (terminal-step r c h)
