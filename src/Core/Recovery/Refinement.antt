-- ===== src/Core/Recovery/Refinement.antt =====
-- crates/keymesh-core/src/recovery/mod.rs implements the quorum with a wait: whatever calls a request
-- receives, it shows what Quorum shows of the same votes.
use key_mesh.Prelude.{ℕ, ◌-◌, ◌≡◌, refl, List, [], ◌∷◌, Option, some, length, length-append, arith}
use key_mesh.Prelude.Members.{contains, contains-push, contains-again}
use key_mesh.Prelude.Text.{Str}
use key_mesh.Quorum.{
  Stage, collecting, maturing, settled, dropped, Ballot, same_ballot, Event, votes, begins, settles,
  withdraws, with_vote, closer, begin, stage_after, voters_after, advance, replay,
}
use key_mesh.Core.Recovery.{
  RecoveryStatus, pending, quorum_reached, executed, RecoveryRequest, approve, cancel, finalize,
}
use key_mesh.Core.Recovery.Invariant.{
  IsSound, Call, approves_by, cancels_now, finalizes_at, step, run, run-IsSound, left,
}

abbrev pub stage_of : RecoveryStatus → Option ℕ → (missing : ℕ) → Stage
stage_of pending _ missing = collecting missing
stage_of quorum_reached (some due) missing = maturing due
stage_of executed _ missing = settled
stage_of _ _ missing = dropped

-- What a request shows: the set of its approvals, and its stage.
unfoldable pub ballot_of : RecoveryRequest → Ballot
ballot_of r = record {
  voted = λ g. contains g r.approvals;
  timelock = r.timelock_snapshot_seconds;
  stage = stage_of r.status r.execute_after (r.quorum_snapshot - length r.approvals);
}

-- A call as events behind earlier ones, the latest first: `finalize` begins and settles at once.
unfoldable pub happened : Call → List Event → List Event
happened (approves_by guardian now) es = votes guardian now ∷ es
happened cancels_now es = withdraws ∷ es
happened (finalizes_at now) es = settles ∷ (begins now ∷ es)

unfoldable pub events_of : List Call → List Event
unfolding happened
events_of [] = []
events_of (c ∷ cs) = happened c (events_of cs)

approve-stage :
    (r : RecoveryRequest) (g : Str) (now : ℕ)
    → IsSound r
    → (ballot_of (approve r g now).1).stage
      ≡ stage_after
          (ballot_of r).stage
          (ballot_of r).voted
          r.timelock_snapshot_seconds
          (votes g now)
unfolding approve ballot_of stage_after closer
approve-stage r g now s = ground (arith, length-append r.approvals (g ∷ []))

approve-voted :
    (r : RecoveryRequest) (g : Str) (now : ℕ) (h : Str)
    → IsSound r
    → (ballot_of (approve r g now).1).voted h
      ≡ voters_after (ballot_of r).stage (ballot_of r).voted (votes g now) h
unfolding approve ballot_of voters_after with_vote
approve-voted r g now h s =
    ground (arith, contains-push h g r.approvals, contains-again h g r.approvals)

cancel-stage :
    (r : RecoveryRequest)
    → IsSound r
    → (ballot_of (cancel r).1).stage
      ≡ stage_after (ballot_of r).stage (ballot_of r).voted r.timelock_snapshot_seconds withdraws
unfolding cancel ballot_of stage_after
cancel-stage r s = ground arith

cancel-voted :
    (r : RecoveryRequest) (h : Str)
    → IsSound r
    → (ballot_of (cancel r).1).voted h
      ≡ voters_after (ballot_of r).stage (ballot_of r).voted withdraws h
unfolding cancel ballot_of voters_after
cancel-voted r h s = ground arith

finalize-stage :
    (r : RecoveryRequest) (now : ℕ)
    → IsSound r
    → (ballot_of (left r (finalize r now))).stage
      ≡ (advance (advance (ballot_of r) (begins now)) settles).stage
unfolding finalize ballot_of advance stage_after begin
finalize-stage r now s = ground arith

finalize-voted :
    (r : RecoveryRequest) (now : ℕ) (h : Str)
    → IsSound r
    → (ballot_of (left r (finalize r now))).voted h
      ≡ (advance (advance (ballot_of r) (begins now)) settles).voted h
unfolding finalize ballot_of advance voters_after stage_after begin
finalize-voted r now h s = ground arith

step-advance :
    (r : RecoveryRequest) (c : Call) (b : Ballot) (es : List Event)
    → IsSound r
    → ballot_of r ≡ replay b es
    → ballot_of (step r c) ≡ replay b (happened c es)
unfolding step happened replay advance ballot_of
step-advance r (approves_by g now) b es s e = rw (← e) (
    same_ballot _ _ (λ h. approve-voted r g now h s) (unfold approve in ground arith)
      (approve-stage r g now s))
step-advance r cancels_now b es s e =
    rw (← e)
      (same_ballot _ _ (λ h. cancel-voted r h s) (unfold cancel in ground arith) (cancel-stage r s))
step-advance r (finalizes_at now) b es s e = rw (← e) (
    same_ballot _ _ (λ h. finalize-voted r now h s) (unfold finalize in ground arith)
      (finalize-stage r now s))

-- Whatever calls a sound request receives, it shows the ballot that their events lead to: the set of the
-- guardians who approved, and whether it collects, waits until a time, is settled or dropped.
pub recovery-refines :
    (r : RecoveryRequest) (cs : List Call)
    → IsSound r
    → ballot_of (run r cs) ≡ replay (ballot_of r) (events_of cs)
unfolding run events_of replay
recovery-refines r [] s = refl
recovery-refines r (c ∷ cs) s =
    step-advance (run r cs) c (ballot_of r) (events_of cs) (run-IsSound r cs s)
      (recovery-refines r cs s)
