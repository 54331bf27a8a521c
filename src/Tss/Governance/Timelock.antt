-- ===== src/Tss/Governance/Timelock.antt =====
-- The timelock of a rotation in crates/keymesh-tss/src/governance.rs: the call that checks it, and the
-- one that does not.
use key_mesh.Prelude.{
  ℕ, ◌+◌, ◌^◌, ◌≤◌, ◌<◌, ◌≡◌, ◌↔◌, ◌⊎◌, inl, inr, refl, true, false, List, [], ◌∷◌, Option, none,
  some, length, length-append, arith, Memᴰ, leb, Bool-cases, Option-cases,
}
use key_mesh.Prelude.Members.{contains}
use key_mesh.Prelude.Text.{Str}
use key_mesh.Prelude.Outcome.{ok, is_ok}
use key_mesh.Tss.Governance.{
  TssRotationRequest, approve, cancel, mark_resharing, mark_resharing_with_time, mark_completed,
  mark_failed, effective_status,
}
use key_mesh.Tss.RotationStatus.{TssRotationStatus, pending, resharing, completed, failed}
use key_mesh.Tss.Governance.Invariant.{
  IsSound, Call, approves_by, cancels_now, reshares_now, reshares_at, completes_now, fails_now,
  step, run, requests-IsSound,
}

module _ (r : TssRotationRequest) (guardian : Str) (now : ℕ) (s : IsSound r) where
  -- The approval that reaches the quorum of a sound request, at a time from which the timelock does not
  -- pass 2 ^ 64: `mark_resharing_with_time` refuses until the timelock has elapsed and succeeds from
  -- then on, but `mark_resharing` succeeds at once.
  pub quorum_reshares :
      (later : ℕ)
      → r.status ≡ pending
      → contains guardian r.approvals ≡ false
      → length r.approvals + 1 ≡ r.quorum_required
      → now + r.timelock_seconds < 2 ^ 64
      → let r' = (approve r guardian now).1 in
        ((is_ok (mark_resharing_with_time r' later).0 ≡ true) ↔ (now + r.timelock_seconds ≤ later))
        × (mark_resharing r' ≡ (ok tt, record r' { status = resharing }))
  unfolding approve mark_resharing mark_resharing_with_time
  quorum_reshares later p fresh last fits =
      let count = length-append r.approvals (guardian ∷ []) in
      ((λ h. ground (arith, count), λ h. ground (arith, count)), ground (arith, count))

-- No call of the history is the one without a time.
abbrev Timed : List Call → Type 0
Timed [] = Unit
Timed (reshares_now ∷ cs) = ⊥
Timed (c ∷ cs) = Timed cs

-- The participants are resharing, or have been.
abbrev Reshared : TssRotationStatus → Type 0
Reshared resharing = Unit
Reshared completed = Unit
Reshared failed = Unit
Reshared _ = ⊥

-- The end of the timelock is a time, and a call at that time or later started the resharing.
abbrev Waited : List Call → Option ℕ → Type 0
Waited cs none = ⊥
Waited cs (some exec) = (u : ℕ) × Memᴰ (reshares_at u) cs × (exec ≤ u)

Waited-later : (c : Call) (cs : List Call) (x : Option ℕ) → Waited cs x → Waited (c ∷ cs) x
Waited-later c cs none w = absurd w
Waited-later c cs (some exec) (u, m, h) = (u, Memᴰ.tail m, h)

-- An approval neither starts nor ends a resharing; nor do the other calls without a time.
Keeps : (r : TssRotationRequest) (c : Call) → Type 0
Keeps r c =
    Reshared (step r c).status → Reshared r.status × ((step r c).executable_at ≡ r.executable_at)

approve-Keeps : (r : TssRotationRequest) (g : Str) (now : ℕ) → Keeps r (approves_by g now)
unfolding Keeps step approve
approve-Keeps r g now h = (ground arith, ground arith)

cancel-Keeps : (r : TssRotationRequest) → Keeps r cancels_now
unfolding Keeps step cancel
cancel-Keeps r h = (ground arith, ground arith)

complete-Keeps : (r : TssRotationRequest) → Keeps r completes_now
unfolding Keeps step mark_completed
complete-Keeps r h = (ground arith, ground arith)

fail-Keeps : (r : TssRotationRequest) → Keeps r fails_now
unfolding Keeps step mark_failed
fail-Keeps r h = (ground arith, ground arith)

-- A resharing that the call with a time started had its timelock elapsed.
reshare_due :
    (r : TssRotationRequest) (now : ℕ)
    → IsSound r
    → Reshared (mark_resharing_with_time r now).1.status
    → ((mark_resharing_with_time r now).1.executable_at ≡ r.executable_at)
      × (Reshared r.status ⊎ ((exec : ℕ) × (r.executable_at ≡ some exec) × (exec ≤ now)))
unfolding mark_resharing_with_time effective_status
reshare_due r now s h = (
  ground arith,
  elim (Option-cases r.executable_at) [
    | inl e ↦ inl (ground arith)
    | inr (exec, e) ↦ elim (Bool-cases (leb exec now)) [
      | inl l ↦ inr (exec, e, ground arith)
      | inr l ↦ inl (ground arith)
    ]
  ],
)

carried :
    (r : TssRotationRequest) (c : Call) (cs : List Call)
    → Keeps r c
    → Reshared (step r c).status
    → (Reshared r.status → Waited cs r.executable_at)
    → Waited (c ∷ cs) (step r c).executable_at
unfolding Keeps
carried r c cs k h before =
    let (old, same) = k h in rw same (Waited-later c cs r.executable_at (before old))

reshare-Waited :
    (r : TssRotationRequest) (now : ℕ) (cs : List Call)
    → IsSound r
    → Reshared (step r (reshares_at now)).status
    → (Reshared r.status → Waited cs r.executable_at)
    → Waited (reshares_at now ∷ cs) (step r (reshares_at now)).executable_at
unfolding step
reshare-Waited r now cs s h before =
    let (same, due) = reshare_due r now s h in
    elim due [
      | inl old ↦ rw same (Waited-later (reshares_at now) cs r.executable_at (before old))
      | inr (exec, e, l) ↦ rw (same, e) (now, Memᴰ.head refl, l)
    ]

step-Waited :
    (r : TssRotationRequest) (c : Call) (cs : List Call)
    → IsSound r
    → Timed (c ∷ cs)
    → Reshared (step r c).status
    → (Reshared r.status → Waited cs r.executable_at)
    → Waited (c ∷ cs) (step r c).executable_at
step-Waited r (approves_by g now) cs s t h before = carried r _ cs (approve-Keeps r g now) h before
step-Waited r cancels_now cs s t h before = carried r _ cs (cancel-Keeps r) h before
step-Waited r reshares_now cs s t h before = absurd t
step-Waited r (reshares_at now) cs s t h before = reshare-Waited r now cs s h before
step-Waited r completes_now cs s t h before = carried r _ cs (complete-Keeps r) h before
step-Waited r fails_now cs s t h before = carried r _ cs (fail-Keeps r) h before

Timed-tail : (c : Call) (cs : List Call) → Timed (c ∷ cs) → Timed cs
Timed-tail reshares_now cs t = absurd t
Timed-tail (approves_by g now) cs t = t
Timed-tail cancels_now cs t = t
Timed-tail (reshares_at now) cs t = t
Timed-tail completes_now cs t = t
Timed-tail fails_now cs t = t

-- Where only the call with a time is used, a sound pending request reshares no earlier than its timelock
-- ends.
run-Waited :
    (r : TssRotationRequest) (cs : List Call)
    → IsSound r
    → r.status ≡ pending
    → Timed cs
    → Reshared (run r cs).status
    → Waited cs (run r cs).executable_at
unfolding run
run-Waited r [] s p t h = absurd (rw p at h)
run-Waited r (c ∷ cs) s p t h =
    step-Waited (run r cs) c cs (requests-IsSound r cs s) t h
      (run-Waited r cs s p (Timed-tail c cs t))
