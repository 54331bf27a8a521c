-- ===== src/Tss/Governance/Refinement.antt =====
-- crates/keymesh-tss/src/governance.rs implements the quorum with a wait: whatever calls with a time a
-- rotation request receives, it shows what Quorum shows of the same votes.
use key_mesh.Prelude.{
  ℕ, ◌-◌, ◌≡◌, refl, List, [], ◌∷◌, Option, some, length, length-append, All, arith,
}
use key_mesh.Prelude.Members.{contains, contains-push, contains-again}
use key_mesh.Prelude.Text.{Str}
use key_mesh.Quorum.{
  Stage, collecting, maturing, begun, settled, dropped, Ballot, same_ballot, Event, votes, begins,
  settles, fails, withdraws, with_vote, closer, begin, stage_after, voters_after, advance, replay,
}
use key_mesh.Tss.RotationStatus.{TssRotationStatus, pending, quorum_reached, resharing, completed}
use key_mesh.Tss.Governance.{
  TssRotationRequest, approve, cancel, mark_resharing_with_time, mark_completed, mark_failed,
}
use key_mesh.Tss.Governance.Invariant.{
  IsSound, Call, approves_by, cancels_now, reshares_now, completes_now, fails_now, reshares_at,
  step, run, requests-IsSound,
}

abbrev pub stage_of : TssRotationStatus → Option ℕ → (missing : ℕ) → Stage
stage_of pending _ missing = collecting missing
stage_of quorum_reached (some due) missing = maturing due
stage_of resharing _ missing = begun
stage_of completed _ missing = settled
stage_of _ _ missing = dropped

-- What a request shows: the set of its approvals, and its stage.
unfoldable pub ballot_of : TssRotationRequest → Ballot
ballot_of r = record {
  voted = λ g. contains g r.approvals;
  timelock = r.timelock_seconds;
  stage = stage_of r.status r.executable_at (r.quorum_required - length r.approvals);
}

-- `mark_resharing` looks at no time; the lifecycle calls only the other.
abbrev pub IsTimed : Call → Type 0
IsTimed reshares_now = ⊥
IsTimed _ = Unit

-- A call as an event behind earlier ones, the latest first.
unfoldable pub happened : Call → List Event → List Event
happened (approves_by guardian now) es = votes guardian now ∷ es
happened cancels_now es = withdraws ∷ es
happened (reshares_at now) es = begins now ∷ es
happened completes_now es = settles ∷ es
happened fails_now es = fails ∷ es
happened reshares_now es = es

unfoldable pub events_of : List Call → List Event
unfolding happened
events_of [] = []
events_of (c ∷ cs) = happened c (events_of cs)

step-stage :
    (r : TssRotationRequest) (c : Call)
    → IsSound r
    → IsTimed c
    → (ballot_of (step r c)).stage ≡ (replay (ballot_of r) (happened c [])).stage
unfolding step approve cancel mark_resharing_with_time mark_completed mark_failed ballot_of
    stage_after closer begin happened replay advance
step-stage r (approves_by g now) s timed = ground (arith, length-append r.approvals (g ∷ []))
step-stage r c s timed = ground arith

step-voted :
    (r : TssRotationRequest) (c : Call) (h : Str)
    → IsSound r
    → IsTimed c
    → (ballot_of (step r c)).voted h ≡ (replay (ballot_of r) (happened c [])).voted h
unfolding step approve cancel mark_resharing_with_time mark_completed mark_failed ballot_of
    voters_after with_vote happened replay advance
step-voted r (approves_by g now) h s timed =
    ground (arith, contains-push h g r.approvals, contains-again h g r.approvals)
step-voted r c h s timed = ground arith

step-timelock :
    (r : TssRotationRequest) (c : Call)
    → IsTimed c
    → (ballot_of (step r c)).timelock ≡ (replay (ballot_of r) (happened c [])).timelock
unfolding step approve cancel mark_resharing_with_time mark_completed mark_failed ballot_of happened
    replay advance
step-timelock r c timed = ground arith

replay-happened :
    (c : Call) (b : Ballot) (es : List Event)
    → replay b (happened c es) ≡ replay (replay b es) (happened c [])
unfolding happened replay
replay-happened c b es = ground arith

-- Whatever calls a sound request receives, of which none is `mark_resharing` without a time, it shows
-- the ballot that their events lead to: the set of the guardians who approved, and whether it collects,
-- waits until a time, is resharing, completed or dropped.
pub rotation-refines :
    (r : TssRotationRequest) (cs : List Call)
    → IsSound r
    → All IsTimed cs
    → ballot_of (run r cs) ≡ replay (ballot_of r) (events_of cs)
unfolding run events_of replay
rotation-refines r [] s timed = refl
rotation-refines r (c ∷ cs) s timed =
    let sound = requests-IsSound r cs s in
    let before = rotation-refines r cs s timed.1 in
    rw (replay-happened c (ballot_of r) (events_of cs), ← before)
      (same_ballot _ _ (λ h. step-voted (run r cs) c h sound timed.0)
        (step-timelock (run r cs) c timed.0) (step-stage (run r cs) c sound timed.0))
