-- ===== src/Tss/Governance/Invariant.antt =====
-- What holds of every rotation request that crates/keymesh-tss/src/governance.rs opened, between two
-- calls.
use mathlib.Core.List.{Nodup-nil}
use key_mesh.Prelude.{
  ℕ, ◌≤◌, ◌<◌, ◌≡◌, ◌↔◌, true, List, [], ◌∷◌, Option, none, some, length, length-append, arith,
  Nodup,
}
use key_mesh.Prelude.Members.{hash_set, hash_set_iff, Nodup-push}
use key_mesh.Prelude.Text.{Str}
use key_mesh.Prelude.Outcome.{ok, is_ok}
use key_mesh.Tss.Governance.{
  TssRotationRequest, min_timelock_seconds, initiate, approve, cancel, mark_resharing,
  mark_resharing_with_time, mark_completed, mark_failed,
}
use key_mesh.Tss.RotationStatus.{
  TssRotationStatus, pending, quorum_reached, resharing, completed, cancelled, failed,
}

-- The time and the number of approvals that each stored status goes with.
abbrev pub Phase : TssRotationStatus → Option ℕ → (count quorum : ℕ) → Type 0
Phase pending none count quorum = count < quorum
Phase quorum_reached (some _) count quorum = count ≡ quorum
Phase resharing (some _) count quorum = count ≡ quorum
Phase completed (some _) count quorum = count ≡ quorum
Phase failed (some _) count quorum = count ≡ quorum
Phase cancelled _ count quorum = count ≤ quorum
Phase _ _ count quorum = ⊥

pub record IsSound (r : TssRotationRequest) : Type 0 where
  pub members_distinct : Nodup r.new_participant_set
  pub threshold_positive : 0 < r.threshold
  pub threshold_fits : r.threshold ≤ length r.new_participant_set
  pub quorum_positive : 0 < r.quorum_required
  pub timelock_long : min_timelock_seconds ≤ r.timelock_seconds
  pub distinct : Nodup r.approvals
  pub phase : Phase r.status r.executable_at (length r.approvals) r.quorum_required

-- The calls that a request receives.
pub data Call : Type 0 where
  approves_by : (guardian : Str) (now_seconds : ℕ) → Call
  cancels_now reshares_now completes_now fails_now : Call
  reshares_at : (now_seconds : ℕ) → Call

unfoldable pub step : TssRotationRequest → Call → TssRotationRequest
step r (approves_by guardian now_seconds) = (approve r guardian now_seconds).1
step r cancels_now = (cancel r).1
step r reshares_now = (mark_resharing r).1
step r (reshares_at now_seconds) = (mark_resharing_with_time r now_seconds).1
step r completes_now = (mark_completed r).1
step r fails_now = (mark_failed r).1

-- A history, its latest call first.
unfoldable pub run : TssRotationRequest → List Call → TssRotationRequest
run r [] = r
run r (c ∷ cs) = step (run r cs) c

-- `initiate` succeeds exactly on a set of different participants, a threshold from 1 to their number, a
-- positive quorum of at most the number of guardians, a timelock of an hour at least and a requester
-- with a name.
pub initiate_rotation_iff :
    (id : ℕ) (wallet : List ℕ) (version : ℕ) (members : List Str) (threshold : ℕ)
    (requester reference : Str) (key : List ℕ) (guardians quorum timelock now : ℕ)
    → (is_ok (
          initiate id wallet version members threshold requester reference key guardians quorum
            timelock now)
        ≡ true)
      ↔ (Nodup members
          × (0 < threshold)
          × (threshold ≤ length members)
          × (0 < quorum)
          × (quorum ≤ guardians)
          × (min_timelock_seconds ≤ timelock)
          × (0 < length requester))
unfolding initiate
initiate_rotation_iff id wallet version members threshold requester reference key guardians quorum
      timelock now =
    let sets = hash_set_iff members in
    (
      λ h. (
        sets.0 (ground arith),
        ground arith,
        ground arith,
        ground arith,
        ground arith,
        ground arith,
        ground arith,
      ),
      λ h. let same = sets.1 h.0 in ground arith,
    )

pub initiate-ok :
    (id : ℕ) (wallet : List ℕ) (version : ℕ) (members : List Str) (threshold : ℕ)
    (requester reference : Str) (key : List ℕ) (guardians quorum timelock now : ℕ)
    (r : TssRotationRequest)
    → initiate id wallet version members threshold requester reference key guardians quorum timelock
        now
      ≡ ok r
    → IsSound r × (r.status ≡ pending)
unfolding initiate
initiate-ok id wallet version members threshold requester reference key guardians quorum timelock
      now r h =
    (
      record {
        members_distinct =
            let same : length (hash_set members) ≡ length members = ground arith in
            ground (arith, (hash_set_iff members).0 same);
        threshold_positive = ground arith;
        threshold_fits = ground arith;
        quorum_positive = ground arith;
        timelock_long = ground arith;
        distinct = ground (arith, Nodup-nil {A = Str});
        phase = ground arith;
      },
      ground arith,
    )

-- Every call keeps the request sound.
pub step-IsSound : (r : TssRotationRequest) (c : Call) → IsSound r → IsSound (step r c)
unfolding step approve cancel mark_resharing mark_resharing_with_time mark_completed mark_failed
step-IsSound r (approves_by g now) s = record {
  members_distinct = ground arith;
  threshold_positive = ground arith;
  threshold_fits = ground arith;
  quorum_positive = ground arith;
  timelock_long = ground arith;
  distinct = ground (arith, Nodup-push g r.approvals);
  phase = ground (arith, length-append r.approvals (g ∷ []));
}
step-IsSound r c s = record {
  members_distinct = ground arith;
  threshold_positive = ground arith;
  threshold_fits = ground arith;
  quorum_positive = ground arith;
  timelock_long = ground arith;
  distinct = ground arith;
  phase = ground arith;
}

-- Every sequence of calls, failed ones included, keeps a sound request sound.
pub requests-IsSound : (r : TssRotationRequest) (cs : List Call) → IsSound r → IsSound (run r cs)
unfolding run
requests-IsSound r [] s = s
requests-IsSound r (c ∷ cs) s = step-IsSound (run r cs) c (requests-IsSound r cs s)
