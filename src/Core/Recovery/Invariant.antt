-- ===== src/Core/Recovery/Invariant.antt =====
-- What holds of every request that crates/keymesh-core/src/recovery/mod.rs opened, between two calls.
use mathlib.Core.List.{Nodup-nil}
use key_mesh.Prelude.{
  ℕ, ◌≤◌, ◌<◌, ◌≡◌, ◌≢◌, List, [], ◌∷◌, Option, none, some, length, length-append, arith, Nodup,
}
use key_mesh.Prelude.Members.{Nodup-push}
use key_mesh.Prelude.Text.{Str}
use key_mesh.Prelude.Outcome.{ok}
use key_mesh.Core.Recovery.{
  RecoveryStatus, pending, quorum_reached, executed, cancelled, RecoveryRequest,
  min_timelock_seconds, initiate, approve, cancel, finalize,
}

-- The time and the number of approvals that each stored status goes with.
abbrev pub Phase : RecoveryStatus → Option ℕ → (count quorum : ℕ) → Type 0
Phase pending none count quorum = count < quorum
Phase quorum_reached (some _) count quorum = count ≡ quorum
Phase executed (some _) count quorum = count ≡ quorum
Phase cancelled _ count quorum = count ≤ quorum
Phase _ _ count quorum = ⊥

pub record IsSound (r : RecoveryRequest) : Type 0 where
  pub quorum_positive : 0 < r.quorum_snapshot
  pub timelock_long : min_timelock_seconds ≤ r.timelock_snapshot_seconds
  pub distinct : Nodup r.approvals
  pub phase : Phase r.status r.execute_after (length r.approvals) r.quorum_snapshot

-- The calls that a request receives.
pub data Call : Type 0 where
  approves_by : (guardian : Str) (now_seconds : ℕ) → Call
  cancels_now : Call
  finalizes_at : (now_seconds : ℕ) → Call

-- The request that `finalize` leaves, also where it would panic.
abbrev pub left {ℓ} :
    {A : Type ℓ} → RecoveryRequest → Option (A × RecoveryRequest) → RecoveryRequest
left r none = r
left r (some (_, r')) = r'

unfoldable pub step : RecoveryRequest → Call → RecoveryRequest
step r (approves_by guardian now_seconds) = (approve r guardian now_seconds).1
step r cancels_now = (cancel r).1
step r (finalizes_at now_seconds) = left r (finalize r now_seconds)

-- A history, its latest call first.
unfoldable pub run : RecoveryRequest → List Call → RecoveryRequest
run r [] = r
run r (c ∷ cs) = step (run r cs) c

pub initiate-ok :
    (id : ℕ) (wallet initiator : Str) (replaced : Option Str) (device : Str)
    (guardians quorum timelock now : ℕ) (r : RecoveryRequest)
    → initiate id wallet initiator replaced device guardians quorum timelock now ≡ ok r
    → IsSound r × (r.status ≡ pending) × (r.approvals ≡ [])
unfolding initiate
initiate-ok id wallet initiator replaced device guardians quorum timelock now r h = (
  record {
    quorum_positive = ground arith;
    timelock_long = ground arith;
    distinct = ground (arith, Nodup-nil {A = Str});
    phase = ground arith;
  },
  ground arith,
  ground arith,
)

approve-IsSound :
    (r : RecoveryRequest) (g : Str) (now : ℕ) → IsSound r → IsSound (approve r g now).1
unfolding approve
approve-IsSound r g now s = record {
  quorum_positive = ground arith;
  timelock_long = ground arith;
  distinct = ground (arith, Nodup-push g r.approvals);
  phase = ground (arith, length-append r.approvals (g ∷ []));
}

cancel-IsSound : (r : RecoveryRequest) → IsSound r → IsSound (cancel r).1
unfolding cancel
cancel-IsSound r s = record {
  quorum_positive = ground arith;
  timelock_long = ground arith;
  distinct = ground arith;
  phase = ground arith;
}

finalize-IsSound : (r : RecoveryRequest) (now : ℕ) → IsSound r → IsSound (left r (finalize r now))
unfolding finalize
finalize-IsSound r now s = record {
  quorum_positive = ground arith;
  timelock_long = ground arith;
  distinct = ground arith;
  phase = ground arith;
}

-- Every call keeps the request sound.
pub step-IsSound : (r : RecoveryRequest) (c : Call) → IsSound r → IsSound (step r c)
unfolding step
step-IsSound r (approves_by g now) s = approve-IsSound r g now s
step-IsSound r cancels_now s = cancel-IsSound r s
step-IsSound r (finalizes_at now) s = finalize-IsSound r now s

-- Every sequence of calls, failed ones included, keeps a sound request sound.
pub run-IsSound : (r : RecoveryRequest) (cs : List Call) → IsSound r → IsSound (run r cs)
unfolding run
run-IsSound r [] s = s
run-IsSound r (c ∷ cs) s = step-IsSound (run r cs) c (run-IsSound r cs s)

-- A sound request never makes `finalize` panic.
pub finalize-ne-none : (r : RecoveryRequest) (now : ℕ) → IsSound r → finalize r now ≢ none
unfolding finalize
finalize-ne-none r now s = ground arith
