-- ===== src/Core/Recovery/Cases.antt =====
-- What one call of crates/keymesh-core/src/recovery/mod.rs may make of a request.
use key_mesh.Prelude.{
  ℕ, ◌+◌, ◌%◌, ◌^◌, ◌≤◌, ◌≡◌, ◌≢◌, ◌⊎◌, refl, ◌∙◌, true, List, [], ◌∷◌, Option, some, length,
  length-append, leb, arith, inl, inr, Bool-cases,
}
use key_mesh.Prelude.Members.{contains, contains-push}
use key_mesh.Prelude.Bytes.{bytes_eq, bytes_eq_iff}
use key_mesh.Prelude.Text.{Str}
use key_mesh.Prelude.Outcome.{ok}
use key_mesh.Core.Recovery.{
  RecoveryStatus, pending, quorum_reached, executable, executed, cancelled, RecoveryRequest,
  approve, cancel, finalize, push_approval,
}
use key_mesh.Core.Recovery.Invariant.{IsSound, Call, step, run, left}

pub approve-cases :
    (r : RecoveryRequest) (g : Str) (now : ℕ)
    → ((approve r g now).1 ≡ r)
      ⊎ (((approve r g now).0 ≡ ok tt)
          × ((approve r g now).1 ≡ push_approval r g now)
          × (r.status ≡ pending))
unfolding approve
approve-cases r g now = ground arith

pub cancel-cases :
    (r : RecoveryRequest) → ((cancel r).1 ≡ r) ⊎ ((cancel r).1 ≡ record r { status = cancelled })
unfolding cancel
cancel-cases r = ground arith

-- A request that is not executable as it is stored is left as it is, or executed once it is due.
pub finalize-cases :
    (r : RecoveryRequest) (now : ℕ)
    → r.status ≢ executable
    → (left r (finalize r now) ≡ r)
      ⊎ ((due : ℕ) × (finalize r now
            ≡ some (ok (r.replaced_device, r.new_device), record r { status = executed }))
          × (r.status ≡ quorum_reached)
          × (r.execute_after ≡ some due)
          × (due ≤ now))
unfolding finalize
finalize-cases r now stored = go r.status r.execute_after refl refl
  where
    go :
        (s : RecoveryStatus) (after : Option ℕ)
        → r.status ≡ s
        → r.execute_after ≡ after
        → (left r (finalize r now) ≡ r)
          ⊎ ((due : ℕ) × (finalize r now
                ≡ some (ok (r.replaced_device, r.new_device), record r { status = executed }))
              × (r.status ≡ quorum_reached)
              × (r.execute_after ≡ some due)
              × (due ≤ now))
    go quorum_reached (some due) p q = elim (Bool-cases (leb due now)) [
      | inl late ↦ inr (due, ground arith, p, q, ground arith)
      | inr early ↦ inl (ground arith)
    ]
    go executable _ p q = absurd (stored p)
    go _ _ p q = inl (ground arith)

-- The terms of a request, which no call changes.
abbrev pub SameTerms : RecoveryRequest → RecoveryRequest → Type 0
SameTerms q r =
    (q.quorum_snapshot ≡ r.quorum_snapshot)
    × (q.timelock_snapshot_seconds ≡ r.timelock_snapshot_seconds)
    × (q.replaced_device ≡ r.replaced_device)
    × (q.new_device ≡ r.new_device)

pub step-SameTerms : (r : RecoveryRequest) (c : Call) → SameTerms (step r c) r
unfolding step approve cancel finalize
step-SameTerms r c = (ground arith, ground arith, ground arith, ground arith)

pub run-SameTerms : (r : RecoveryRequest) (cs : List Call) → SameTerms (run r cs) r
unfolding run
run-SameTerms r [] = (refl, refl, refl, refl)
run-SameTerms r (c ∷ cs) =
    let (a, b, d, e) = step-SameTerms (run r cs) c in
    let (a', b', d', e') = run-SameTerms r cs in (a ∙ a', b ∙ b', d ∙ d', e ∙ e')

-- An approval that leaves a time was the last that the quorum lacked.
pub push-reached :
    (r : RecoveryRequest) (g : Str) (now due : ℕ)
    → IsSound r
    → r.status ≡ pending
    → (push_approval r g now).execute_after ≡ some due
    → (length r.approvals + 1 ≡ r.quorum_snapshot)
      × (due ≡ (now + r.timelock_snapshot_seconds) % 2 ^ 64)
unfolding push_approval
push-reached r g now due s p e =
    let count = length-append r.approvals (g ∷ []) in (ground (arith, count), ground (arith, count))

pub push-contains :
    (r : RecoveryRequest) (g h : Str) (now : ℕ)
    → contains h (push_approval r g now).approvals ≡ true
    → (contains h r.approvals ≡ true) ⊎ (g ≡ h)
unfolding push_approval
push-contains r g h now m = elim (Bool-cases (bytes_eq g h)) [
  | inl same ↦ inr ((bytes_eq_iff g h).0 same)
  | inr apart ↦ inl (ground (arith, contains-push h g r.approvals, apart))
]
