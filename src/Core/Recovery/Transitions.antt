-- ===== src/Core/Recovery/Transitions.antt =====
-- Which calls crates/keymesh-core/src/recovery/mod.rs accepts, against its table of actions.
use key_mesh.Prelude.{
  ℕ, ◌≤◌, ◌<◌, ◌≡◌, ◌↔◌, refl, Bool, true, false, not, ◌&&◌, List, [], ◌∷◌, Option, none, some,
  length, arith,
}
use key_mesh.Prelude.Members.{contains}
use key_mesh.Prelude.Text.{Str}
use key_mesh.Prelude.Outcome.{Result, err, is_ok}
use key_mesh.Core.Errors.{KeymeshError}
use key_mesh.Core.Recovery.{
  RecoveryRequest, min_timelock_seconds, is_terminal, initiate, approve, cancel, finalize,
  effective_status, allows, approves, cancels, finalizes, replaces_itself,
}
use key_mesh.Core.Recovery.Invariant.{Call, step, run}

-- `initiate` succeeds exactly when the new device has a name other than the replaced one's, the quorum
-- is positive and at most the number of guardians, and the timelock is at least an hour.
pub initiate_iff :
    (id : ℕ) (wallet initiator : Str) (replaced : Option Str) (device : Str)
    (guardians quorum timelock now : ℕ)
    → (is_ok (initiate id wallet initiator replaced device guardians quorum timelock now) ≡ true)
      ↔ ((0 < length device)
          × (replaces_itself replaced device ≡ false)
          × (0 < quorum)
          × (quorum ≤ guardians)
          × (min_timelock_seconds ≤ timelock))
unfolding initiate
initiate_iff id wallet initiator replaced device guardians quorum timelock now = ground arith

abbrev finalized {ℓ} : {A : Type ℓ} → Option (Result A KeymeshError × RecoveryRequest) → Bool
finalized none = false
finalized (some (r, _)) = is_ok r

-- Each call succeeds exactly when the table allows its action in the effective status; an approval
-- also has to be the guardian's first.
pub calls-allows :
    (r : RecoveryRequest) (guardian : Str) (now : ℕ)
    → (is_ok (approve r guardian now).0
        ≡ (allows (effective_status r now) approves && not (contains guardian r.approvals)))
      × (is_ok (cancel r).0 ≡ allows (effective_status r now) cancels)
      × (finalized (finalize r now) ≡ allows (effective_status r now) finalizes)
unfolding approve cancel finalize
calls-allows r guardian now = (ground arith, ground arith, ground arith)

-- A call that fails leaves the request as it was.
pub failed_calls_unchanged :
    (r : RecoveryRequest) (guardian : Str) (now : ℕ)
    → (is_ok (approve r guardian now).0 ≡ false → (approve r guardian now).1 ≡ r)
      × (is_ok (cancel r).0 ≡ false → (cancel r).1 ≡ r)
      × ((e : KeymeshError) (r' : RecoveryRequest) → finalize r now ≡ some (err e, r') → r' ≡ r)
unfolding approve cancel finalize
failed_calls_unchanged r guardian now = (ground arith, ground arith, λ e r' h. ground arith)

terminal-step : (r : RecoveryRequest) (c : Call) → is_terminal r.status ≡ true → step r c ≡ r
unfolding step approve cancel finalize is_terminal
terminal-step r c h = ground arith

-- No sequence of calls changes a terminal request.
pub terminal_frozen :
    (r : RecoveryRequest) (cs : List Call) → is_terminal r.status ≡ true → run r cs ≡ r
unfolding run
terminal_frozen r [] h = refl
terminal_frozen r (c ∷ cs) h = rw (terminal_frozen r cs h) (terminal-step r c h)
