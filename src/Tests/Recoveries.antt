-- ===== src/Tests/Recoveries.antt =====
-- crates/keymesh-core/src/recovery/mod.rs on a request with two guardians.
use key_mesh.Prelude.{ℕ, ◌≡◌, refl, false, List, [], ◌∷◌, none, some, length, All, Nodup, arith}
use key_mesh.Prelude.Bytes.{bytes_eq}
use key_mesh.Prelude.Members.{contains}
use key_mesh.Prelude.Text.{Str}
use key_mesh.Prelude.Outcome.{ok, err, is_ok}
use key_mesh.Core.Errors.{timelock_active}
use key_mesh.Core.Recovery.{
  pending, quorum_reached, executable, executed, RecoveryRequest, initiate, approve, cancel,
  finalize, effective_status, allows, cancels,
}
use key_mesh.Core.Recovery.Invariant.{
  Call, approves_by, finalizes_at, step, run, IsSound, run-IsSound, initiate-ok,
}
use key_mesh.Quorum.{replay}
use key_mesh.Core.Recovery.Refinement.{ballot_of, events_of, recovery-refines}
use key_mesh.Core.Recovery.Completion.{approvals_by, recovery_completes}
use key_mesh.Core.Recovery.Transitions.{calls-allows}
use mathlib.Core.List.Perm
use key_mesh.Core.Recovery.Order.{approvals_at, recovery-Perm}
use key_mesh.Core.Recovery.History.{executed_accounts, Accepted, Executed}
use key_mesh.Core.Recovery.Timelock.{quorum_starts_timelock, quorum_wraps}
use key_mesh.Core.Recovery.Identity.{canonical_bytes, unwrap_or_empty, canonical_bytes_inj, IsTyped}

abbrev alice : Str
alice = b'a' ∷ []

abbrev bob : Str
bob = b'b' ∷ []

abbrev device : Str
device = b'd' ∷ []

abbrev opened : RecoveryRequest
opened = record {
  id = 7;
  wallet = b'w' ∷ [];
  initiator = alice;
  replaced_device = none;
  new_device = device;
  initiated_at = 1_000;
  execute_after = none;
  quorum_snapshot = 2;
  timelock_snapshot_seconds = 3_600;
  approvals = [];
  status = pending;
}

opened_ok : initiate 7 (b'w' ∷ []) alice none device 3 2 3_600 1_000 ≡ ok opened
unfolding initiate
opened_ok = refl

opened-IsSound : IsSound opened
opened-IsSound = (initiate-ok 7 (b'w' ∷ []) alice none device 3 2 3_600 1_000 opened opened_ok).0

-- Newest first: both approve, and the request is finalized as the timelock ends.
abbrev history : List Call
history = finalizes_at 5_700 ∷ approves_by bob 2_100 ∷ approves_by alice 2_000 ∷ []

history_executes : (run opened history).status ≡ executed
unfolding run step approve finalize contains bytes_eq effective_status
history_executes = refl

executed_accounts_example :
    Nodup (run opened history).approvals
    × (length (run opened history).approvals ≡ 2)
    × All (Accepted opened history) (run opened history).approvals
    × Executed opened history
executed_accounts_example =
    executed_accounts 7 (b'w' ∷ []) alice none device 3 2 3_600 1_000 opened history opened_ok
      history_executes

calls-allows_example : is_ok (cancel opened).0 ≡ allows (effective_status opened 2_000) cancels
calls-allows_example = (calls-allows opened alice 2_000).1

abbrev waiting : RecoveryRequest
waiting = record opened {
  approvals = alice ∷ bob ∷ [];
  execute_after = some 5_700;
  status = quorum_reached;
}

abbrev half_approved : RecoveryRequest
half_approved = record opened { approvals = alice ∷ [] }

half_approved-IsSound : IsSound half_approved
unfolding bytes_eq contains step run approve
half_approved-IsSound = run-IsSound opened (approves_by alice 2_000 ∷ []) opened-IsSound

bob_not_yet : contains bob (alice ∷ []) ≡ false
unfolding contains bytes_eq
bob_not_yet = refl

-- One second before the end.
quorum_starts_timelock_example :
    finalize (approve half_approved bob 2_100).1 5_699
    ≡ some (err (timelock_active 1), (approve half_approved bob 2_100).1)
quorum_starts_timelock_example =
    (quorum_starts_timelock half_approved bob 2_100 half_approved-IsSound 5_699 refl bob_not_yet
        refl (omega arith)).0
      (omega arith)

-- A timelock of 2 ^ 64 - 1 seconds.
abbrev forever : RecoveryRequest
forever = record half_approved { timelock_snapshot_seconds = 18_446_744_073_709_551_615 }

forever-IsSound : IsSound forever
forever-IsSound = record {
  quorum_positive = half_approved-IsSound.quorum_positive;
  timelock_long = omega arith;
  distinct = half_approved-IsSound.distinct;
  phase = half_approved-IsSound.phase;
}

quorum_wraps_example : effective_status (approve forever bob 2_100).1 2_100 ≡ executable
quorum_wraps_example =
    quorum_wraps forever bob 2_100 forever-IsSound refl bob_not_yet refl (omega arith) (omega arith)
      (omega arith)

opened-IsTyped : IsTyped opened
opened-IsTyped = record {
  id_u64 = omega arith;
  wallet_len = omega arith;
  initiator_len = omega arith;
  replaced_len = omega arith;
  new_len = omega arith;
  initiated_u64 = omega arith;
  timelock_u64 = omega arith;
}

opened_encodes : (bytes : List ℕ) × (canonical_bytes opened ≡ some bytes)
unfolding canonical_bytes
opened_encodes = (_, refl)

canonical_bytes_inj_example :
    (opened.id ≡ opened.id)
    × (opened.wallet ≡ opened.wallet)
    × (opened.initiator ≡ opened.initiator)
    × (unwrap_or_empty opened.replaced_device ≡ unwrap_or_empty opened.replaced_device)
    × (opened.new_device ≡ opened.new_device)
    × (opened.initiated_at ≡ opened.initiated_at)
    × (opened.quorum_snapshot ≡ opened.quorum_snapshot)
    × (opened.timelock_snapshot_seconds ≡ opened.timelock_snapshot_seconds)
canonical_bytes_inj_example =
    canonical_bytes_inj opened opened opened_encodes.0 opened-IsTyped opened-IsTyped
      opened_encodes.1 opened_encodes.1

recovery-refines_example :
    ballot_of (run opened history) ≡ replay (ballot_of opened) (events_of history)
recovery-refines_example = recovery-refines opened history opened-IsSound

recovery_completes_example :
    (run opened (finalizes_at 5_700 ∷ approvals_by ((bob, 2_100) ∷ (alice, 2_000) ∷ []))).status
    ≡ executed
unfolding contains bytes_eq
recovery_completes_example =
    recovery_completes opened bob 2_100 ((alice, 2_000) ∷ []) 5_700 opened-IsSound refl refl
      (refl, refl, (refl, refl, tt)) (omega arith)

-- Both approve at one time, in either order.
recovery-Perm_example :
    (ballot_of (run opened (approvals_at 2_000 (alice ∷ bob ∷ [])))).stage
    ≡ (ballot_of (run opened (approvals_at 2_000 (bob ∷ alice ∷ [])))).stage
recovery-Perm_example =
    recovery-Perm opened 2_000 (alice ∷ bob ∷ []) (bob ∷ alice ∷ []) opened-IsSound
      (Perm.swap bob alice [])
