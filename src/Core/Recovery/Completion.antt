-- ===== src/Core/Recovery/Completion.antt =====
-- crates/keymesh-core/src/recovery/mod.rs: enough guardians get a recovery executed.
use key_mesh.Prelude.{
  ℕ, suc, ◌+◌, ◌%◌, ◌^◌, ◌≤◌, ◌≡◌, refl, ap, ◌∙◌, List, [], ◌∷◌, Option, length, arith,
}
use key_mesh.Prelude.Members.{contains}
use key_mesh.Prelude.Text.{Str}
use key_mesh.Quorum.{Ballot, collecting, settled}
use key_mesh.Quorum.Progress.{AreFresh, votes_of, replay-settled}
use key_mesh.Core.Recovery.{RecoveryStatus, pending, executed, RecoveryRequest}
use key_mesh.Core.Recovery.Invariant.{IsSound, Call, approves_by, finalizes_at, run}
use key_mesh.Core.Recovery.Refinement.{stage_of, ballot_of, happened, events_of, recovery-refines}

-- The approvals of guardians with their times, the latest first.
abbrev pub approvals_by : List (Str × ℕ) → List Call
approvals_by [] = []
approvals_by ((g, t) ∷ vs) = approves_by g t ∷ approvals_by vs

events-approvals : (vs : List (Str × ℕ)) → events_of (approvals_by vs) ≡ votes_of vs
unfolding events_of happened votes_of
events-approvals [] = refl
events-approvals ((g, t) ∷ vs) = ground (arith, events-approvals vs)

executed_of_settled :
    (s : RecoveryStatus) (x : Option ℕ) (missing : ℕ)
    → stage_of s x missing ≡ settled
    → s ≡ executed
executed_of_settled s x missing h = ground arith

-- A sound pending request is executed by as many approvals as its quorum lacks, from guardians who differ
-- from each other and from those who approved, and a call of `finalize` once the timelock, counted from
-- the last of them (modulo 2 ^ 64), is over.
pub recovery_completes :
    (r : RecoveryRequest) (g : Str) (t : ℕ) (vs : List (Str × ℕ)) (now : ℕ)
    → IsSound r
    → r.status ≡ pending
    → length r.approvals + suc (length vs) ≡ r.quorum_snapshot
    → AreFresh (λ h. contains h r.approvals) ((g, t) ∷ vs)
    → (t + r.timelock_snapshot_seconds) % 2 ^ 64 ≤ now
    → (run r (finalizes_at now ∷ approvals_by ((g, t) ∷ vs))).status ≡ executed
unfolding ballot_of events_of happened
recovery_completes r g t vs now sound waits quorum fresh due =
    let history = finalizes_at now ∷ approvals_by ((g, t) ∷ vs) in
    let collects : (ballot_of r).stage ≡ collecting (suc (length vs)) =
      rw waits (ap collecting (omega arith)) in
    let shown : (ballot_of (run r history)).stage ≡ settled =
      ap Ballot.stage (recovery-refines r history sound)
      ∙ rw (events-approvals ((g, t) ∷ vs))
          (replay-settled (ballot_of r) g t vs now collects fresh due) in
    executed_of_settled (run r history).status (run r history).execute_after _ shown
