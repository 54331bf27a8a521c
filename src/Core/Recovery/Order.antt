-- ===== src/Core/Recovery/Order.antt =====
-- The order of approvals at one time in crates/keymesh-core/src/recovery/mod.rs.
use mathlib.Core.List.{Perm}
use key_mesh.Prelude.{ℕ, ◌≡◌, refl, List, [], ◌∷◌, map}
use key_mesh.Prelude.Text.{Str}
use key_mesh.Quorum.Order.{votes_at, replay-Perm}
use key_mesh.Core.Recovery.{RecoveryRequest}
use key_mesh.Core.Recovery.Invariant.{IsSound, Call, approves_by, run}
use key_mesh.Core.Recovery.Refinement.{ballot_of, happened, events_of, recovery-refines}

abbrev pub approvals_at : ℕ → List Str → List Call
approvals_at now = map (λ g. approves_by g now)

events-approvals : (now : ℕ) (gs : List Str) → events_of (approvals_at now gs) ≡ votes_at now gs
unfolding events_of happened
events-approvals now [] = refl
events-approvals now (g ∷ gs) = rw (events-approvals now gs) refl

-- A sound request comes to the same stage in whatever order guardians approve it at one time: it lacks as
-- many approvals, waits until the same time, or is closed alike.
pub recovery-Perm :
    (r : RecoveryRequest) (now : ℕ) (gs hs : List Str)
    → IsSound r
    → Perm gs hs
    → (ballot_of (run r (approvals_at now gs))).stage
      ≡ (ballot_of (run r (approvals_at now hs))).stage
recovery-Perm r now gs hs s p =
    rw
      (
        recovery-refines r (approvals_at now gs) s,
        recovery-refines r (approvals_at now hs) s,
        events-approvals now gs,
        events-approvals now hs,
      )
      (replay-Perm (ballot_of r) now gs hs p)
