-- ===== src/Tss/Governance/Completion.antt =====
-- crates/keymesh-tss/src/governance.rs: enough guardians get a rotation completed.
use key_mesh.Prelude.{
  ℕ, suc, ◌+◌, ◌%◌, ◌^◌, ◌≤◌, ◌≡◌, refl, ap, ◌∙◌, List, [], ◌∷◌, Option, All, length, arith,
}
use key_mesh.Prelude.Members.{contains}
use key_mesh.Prelude.Text.{Str}
use key_mesh.Quorum.{Ballot, collecting, settled}
use key_mesh.Quorum.Progress.{AreFresh, votes_of, replay-settled}
use key_mesh.Tss.RotationStatus.{TssRotationStatus, pending, completed}
use key_mesh.Tss.Governance.{TssRotationRequest}
use key_mesh.Tss.Governance.Invariant.{IsSound, Call, approves_by, reshares_at, completes_now, run}
use key_mesh.Tss.Governance.Refinement.{
  stage_of, ballot_of, IsTimed, happened, events_of, rotation-refines,
}

-- The approvals of guardians with their times, the latest first.
abbrev pub rotation_approvals : List (Str × ℕ) → List Call
rotation_approvals [] = []
rotation_approvals ((g, t) ∷ vs) = approves_by g t ∷ rotation_approvals vs

events-approvals : (vs : List (Str × ℕ)) → events_of (rotation_approvals vs) ≡ votes_of vs
unfolding events_of happened votes_of
events-approvals [] = refl
events-approvals ((g, t) ∷ vs) = ground (arith, events-approvals vs)

approvals-IsTimed : (vs : List (Str × ℕ)) → All IsTimed (rotation_approvals vs)
approvals-IsTimed [] = tt
approvals-IsTimed ((g, t) ∷ vs) = (tt, approvals-IsTimed vs)

completed_of_settled :
    (s : TssRotationStatus) (x : Option ℕ) (missing : ℕ)
    → stage_of s x missing ≡ settled
    → s ≡ completed
completed_of_settled s x missing h = ground arith

-- A sound pending request is completed by as many approvals as its quorum lacks, from guardians who
-- differ from each other and from those who approved, a call of `mark_resharing_with_time` once the
-- timelock, counted from the last of them (modulo 2 ^ 64), is over, and then one of `mark_completed`.
pub rotation_completes :
    (r : TssRotationRequest) (g : Str) (t : ℕ) (vs : List (Str × ℕ)) (now : ℕ)
    → IsSound r
    → r.status ≡ pending
    → length r.approvals + suc (length vs) ≡ r.quorum_required
    → AreFresh (λ h. contains h r.approvals) ((g, t) ∷ vs)
    → (t + r.timelock_seconds) % 2 ^ 64 ≤ now
    → (run r (completes_now ∷ (reshares_at now ∷ rotation_approvals ((g, t) ∷ vs)))).status
      ≡ completed
unfolding ballot_of events_of happened
rotation_completes r g t vs now sound waits quorum fresh due =
    let history = completes_now ∷ (reshares_at now ∷ rotation_approvals ((g, t) ∷ vs)) in
    let collects : (ballot_of r).stage ≡ collecting (suc (length vs)) =
      rw waits (ap collecting (omega arith)) in
    let shown : (ballot_of (run r history)).stage ≡ settled =
      ap Ballot.stage (rotation-refines r history sound (tt, (tt, approvals-IsTimed ((g, t) ∷ vs))))
      ∙ rw (events-approvals ((g, t) ∷ vs))
          (replay-settled (ballot_of r) g t vs now collects fresh due) in
    completed_of_settled (run r history).status (run r history).executable_at _ shown
