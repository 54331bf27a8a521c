-- ===== src/Core/Recovery/Timelock.antt =====
-- The timelock of crates/keymesh-core/src/recovery/mod.rs, from the approval that reaches the quorum.
use key_mesh.Prelude.{
  ℕ, ◌+◌, ◌-◌, ◌^◌, ◌≤◌, ◌<◌, ◌≡◌, ◌↔◌, false, [], ◌∷◌, some, length, length-append, arith,
}
use key_mesh.Prelude.Members.{contains}
use key_mesh.Prelude.Text.{Str}
use key_mesh.Prelude.Outcome.{ok, err}
use key_mesh.Core.Errors.{timelock_active}
use key_mesh.Core.Recovery.{
  pending, quorum_reached, executable, executed, RecoveryRequest, approve, finalize,
  effective_status,
}
use key_mesh.Core.Recovery.Invariant.{IsSound}

-- A request whose timelock has elapsed stays executable, and the boundary is inclusive.
pub effective_status_due :
    (r : RecoveryRequest) (after now later : ℕ)
    → r.status ≡ quorum_reached
    → r.execute_after ≡ some after
    → ((effective_status r now ≡ executable) ↔ (after ≤ now))
      × (effective_status r now ≡ executable → now ≤ later → effective_status r later ≡ executable)
unfolding effective_status
effective_status_due r after now later s x = (ground arith, ground arith)

module _ (r : RecoveryRequest) (guardian : Str) (now : ℕ) (s : IsSound r) where
  -- The approval that reaches the quorum of a sound request, at a time from which the timelock does
  -- not pass 2 ^ 64:
  -- until the timelock has elapsed `finalize` fails with the seconds that are left and changes
  -- nothing; from then on it returns the replacement and the request is executed.
  pub quorum_starts_timelock :
      (later : ℕ)
      → r.status ≡ pending
      → contains guardian r.approvals ≡ false
      → length r.approvals + 1 ≡ r.quorum_snapshot
      → now + r.timelock_snapshot_seconds < 2 ^ 64
      → let r' = (approve r guardian now).1 in
        let due = now + r.timelock_snapshot_seconds in
        (later < due → finalize r' later ≡ some (err (timelock_active (due - later)), r'))
        × (due ≤ later
            → finalize r' later
              ≡ some (ok (r.replaced_device, r.new_device), record r' { status = executed }))
  unfolding approve finalize
  quorum_starts_timelock later p fresh last fits =
      let count = length-append r.approvals (guardian ∷ []) in
      (λ h. ground (arith, count), λ h. ground (arith, count))

  -- For the approval that reaches the quorum of a sound request: where the sum of time and timelock
  -- passes 2 ^ 64 it wraps, and the request can be executed at once.
  pub quorum_wraps :
      r.status ≡ pending
      → contains guardian r.approvals ≡ false
      → length r.approvals + 1 ≡ r.quorum_snapshot
      → now < 2 ^ 64
      → r.timelock_snapshot_seconds < 2 ^ 64
      → 2 ^ 64 ≤ now + r.timelock_snapshot_seconds
      → effective_status (approve r guardian now).1 now ≡ executable
  unfolding approve effective_status
  quorum_wraps p fresh last hn ht over = ground (arith, length-append r.approvals (guardian ∷ []))
