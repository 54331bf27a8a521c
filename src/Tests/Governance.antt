-- ===== src/Tests/Governance.antt =====
-- crates/keymesh-tss/src/governance.rs on a rotation with two guardians.
use key_mesh.Prelude.{◌≡◌, refl, false, List, [], ◌∷◌, none, replicate, arith, Nodup}
use key_mesh.Prelude.Bytes.{bytes_eq}
use key_mesh.Prelude.Members.{contains, hash_set, hash_set_iff}
use key_mesh.Prelude.Text.{Str}
use key_mesh.Prelude.Outcome.{ok}
use key_mesh.Tss.Governance.{
  TssRotationRequest, initiate, approve, mark_resharing, mark_resharing_with_time, effective_status,
}
use key_mesh.Tss.RotationStatus.{pending, resharing, completed}
use key_mesh.Tss.Governance.Invariant.{
  IsSound, Call, approves_by, reshares_at, completes_now, run, step, initiate-ok, requests-IsSound,
}
use key_mesh.Quorum.{replay}
use key_mesh.Tss.Governance.Refinement.{ballot_of, events_of, rotation-refines}
use key_mesh.Tss.Governance.Completion.{rotation_approvals, rotation_completes}
use key_mesh.Tss.Governance.Timelock.{quorum_reshares}
use key_mesh.Tss.Governance.Canonical.{IsTyped, rotation_bytes_inj}

abbrev pub alice : Str
alice = b'a' ∷ []

abbrev pub bob : Str
bob = b'b' ∷ []

abbrev members : List Str
members = (b'A' ∷ []) ∷ (b'C' ∷ []) ∷ (b'D' ∷ []) ∷ []

abbrev pub opened : TssRotationRequest
opened = record {
  id = 1;
  wallet = replicate 20 9;
  old_participant_set_version = 1;
  new_participant_set = members;
  threshold = 2;
  requested_by = alice;
  governance_reference = [];
  created_at = 1_000;
  executable_at = none;
  quorum_required = 2;
  timelock_seconds = 3_600;
  approvals = [];
  status = pending;
  group_public_key = replicate 33 5;
}

opened_ok :
    initiate 1 (replicate 20 9) 1 members 2 alice [] (replicate 33 5) 3 2 3_600 1_000 ≡ ok opened
unfolding initiate hash_set contains bytes_eq
opened_ok = refl

pub opened-IsSound : IsSound opened
opened-IsSound =
    (initiate-ok 1 (replicate 20 9) 1 members 2 alice [] (replicate 33 5) 3 2 3_600 1_000 opened
      opened_ok).0

members_distinct : Nodup members
unfolding hash_set contains bytes_eq
members_distinct = (hash_set_iff members).0 refl

-- Newest first: both approve, and the resharing starts as the timelock ends.
abbrev history : List Call
history = reshares_at 5_700 ∷ approves_by bob 2_100 ∷ approves_by alice 2_000 ∷ []

history_reshares : (run opened history).status ≡ resharing
unfolding run step approve mark_resharing_with_time contains bytes_eq effective_status
history_reshares = refl

abbrev half_approved : TssRotationRequest
half_approved = record opened { approvals = alice ∷ [] }

half_approved-IsSound : IsSound half_approved
unfolding bytes_eq contains step run approve
half_approved-IsSound = requests-IsSound opened (approves_by alice 2_000 ∷ []) opened-IsSound

bob_not_yet : contains bob (alice ∷ []) ≡ false
unfolding contains bytes_eq
bob_not_yet = refl

-- A second before the timelock ends, `mark_resharing` succeeds.
quorum_reshares_example :
    mark_resharing (approve half_approved bob 2_100).1
    ≡ (ok tt, record (approve half_approved bob 2_100).1 { status = resharing })
quorum_reshares_example =
    (quorum_reshares half_approved bob 2_100 half_approved-IsSound 5_699 refl bob_not_yet refl
      (omega arith)).1

opened-IsTyped : IsTyped opened
opened-IsTyped = record {
  id_u64 = omega arith;
  wallet_20 = refl;
  version_u64 = omega arith;
  members_u64 = omega arith;
  member_lengths = omega arith;
  threshold_u64 = omega arith;
  quorum_u64 = omega arith;
  timelock_u64 = omega arith;
  created_u64 = omega arith;
}

rotation_bytes_inj_example :
    (opened.id ≡ opened.id)
    × (opened.wallet ≡ opened.wallet)
    × (opened.old_participant_set_version ≡ opened.old_participant_set_version)
    × (opened.new_participant_set ≡ opened.new_participant_set)
    × (opened.threshold ≡ opened.threshold)
    × (opened.quorum_required ≡ opened.quorum_required)
    × (opened.timelock_seconds ≡ opened.timelock_seconds)
    × (opened.created_at ≡ opened.created_at)
    × (opened.group_public_key ≡ opened.group_public_key)
rotation_bytes_inj_example = rotation_bytes_inj opened opened opened-IsTyped opened-IsTyped refl

rotation-refines_example :
    ballot_of (run opened history) ≡ replay (ballot_of opened) (events_of history)
rotation-refines_example = rotation-refines opened history opened-IsSound (tt, (tt, (tt, tt)))

rotation_completes_example :
    (run opened (
      completes_now
      ∷ (reshares_at 5_700 ∷ rotation_approvals ((bob, 2_100) ∷ (alice, 2_000) ∷ [])))).status
    ≡ completed
unfolding contains bytes_eq
rotation_completes_example =
    rotation_completes opened bob 2_100 ((alice, 2_000) ∷ []) 5_700 opened-IsSound refl refl
      (refl, refl, (refl, refl, tt)) (omega arith)
