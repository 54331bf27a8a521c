-- ===== src/Core/Recovery/History.antt =====
-- What the history of a request shows that crates/keymesh-core/src/recovery/mod.rs has executed.
use key_mesh.Prelude.{
  ℕ, ◌+◌, ◌%◌, ◌^◌, ◌≤◌, ◌≡◌, ◌⊎◌, refl, ap, ◌∙◌, true, List, [], ◌∷◌, ◌++◌, Option, some, length,
  arith, Nodup, All, inl, inr,
}
use key_mesh.Prelude.Members.{contains, All-of_contains}
use key_mesh.Prelude.Text.{Str}
use key_mesh.Prelude.Outcome.{ok}
use key_mesh.Core.Recovery.{
  pending, quorum_reached, executed, RecoveryRequest, initiate, approve, finalize, push_approval,
}
use key_mesh.Core.Recovery.Cases.{
  approve-cases, cancel-cases, finalize-cases, run-SameTerms, push-reached, push-contains,
}
use key_mesh.Core.Recovery.Invariant.{
  IsSound, Phase, Call, approves_by, cancels_now, finalizes_at, step, run, initiate-ok, run-IsSound,
}

-- A call of the history, with the calls before it and those after it.
abbrev pub Split : List Call → (later : List Call) → Call → (before : List Call) → Type 0
Split cs later c before = cs ≡ later ++ (c ∷ before)

-- An approval of the guardian succeeded.
abbrev pub Accepted : RecoveryRequest → List Call → Str → Type 0
Accepted r cs g =
    (t : ℕ) × (later : List Call) × (before : List Call) × Split cs later (approves_by g t) before
    × ((approve (run r before) g t).0 ≡ ok tt)

-- The approval that reached the quorum succeeded, and the timelock ends so long after it.
abbrev pub Closed : RecoveryRequest → List Call → (due : ℕ) → Type 0
Closed r cs due =
    (g : Str) × (t : ℕ) × (later : List Call) × (before : List Call) × Split cs later
      (approves_by g t) before
    × ((approve (run r before) g t).0 ≡ ok tt)
    × (length (run r before).approvals + 1 ≡ r.quorum_snapshot)
    × (due ≡ (t + r.timelock_snapshot_seconds) % 2 ^ 64)

-- The call of `finalize` that executed the request came after that approval, and no earlier than that.
abbrev pub Executed : RecoveryRequest → List Call → Type 0
Executed r cs =
    (u : ℕ) × (due : ℕ) × (later : List Call) × (before : List Call) × Split cs later
      (finalizes_at u) before
    × (finalize (run r before) u
        ≡ some (ok (r.replaced_device, r.new_device), record (run r before) { status = executed }))
    × Closed r before due
    × (due ≤ u)

Closed-later :
    (r : RecoveryRequest) (c : Call) (cs : List Call) (due : ℕ)
    → Closed r cs due
    → Closed r (c ∷ cs) due
Closed-later r c cs due (g, t, later, before, e, done, full, same) =
    (g, t, c ∷ later, before, ap (λ l. c ∷ l) e, done, full, same)

Executed-later :
    (r : RecoveryRequest) (c : Call) (cs : List Call) → Executed r cs → Executed r (c ∷ cs)
Executed-later r c cs (u, due, later, before, e, done, closed, late) =
    (u, due, c ∷ later, before, ap (λ l. c ∷ l) e, done, closed, late)

Accepted-later :
    (r : RecoveryRequest) (c : Call) (cs : List Call) (g : Str)
    → Accepted r cs g
    → Accepted r (c ∷ cs) g
Accepted-later r c cs g (t, later, before, e, accepted) =
    (t, c ∷ later, before, ap (λ l. c ∷ l) e, accepted)

carried :
    {A : Type 0} (r : RecoveryRequest) (c : Call) (cs : List Call) (g : Str)
    → A ⊎ Accepted r cs g
    → A ⊎ Accepted r (c ∷ cs) g
carried r c cs g (inl before) = inl before
carried r c cs g (inr accepted) = inr (Accepted-later r c cs g accepted)

-- Only `finalize` leaves a request executed, and only an approval leaves it waiting.
module _ (r : RecoveryRequest) (s : IsSound r) (p : r.status ≡ pending) where
  run-Closed :
      (cs : List Call) (due : ℕ)
      → (run r cs).status ≡ quorum_reached
      → (run r cs).execute_after ≡ some due
      → Closed r cs due
  unfolding run step
  run-Closed [] due h e = absurd (ground arith)
  run-Closed (approves_by g t ∷ cs) due h e = elim (approve-cases (run r cs) g t) [
    | inl same ↦
        Closed-later r (approves_by g t) cs due (run-Closed cs due (rw same at h) (rw same at e))
    | inr (done, pushed, early) ↦
        let (full, at) =
          push-reached (run r cs) g t due (run-IsSound r cs s) early (rw pushed at e) in
        let (quorum, timelock, _, _) = run-SameTerms r cs in
        (g, t, [], cs, refl, done, full ∙ quorum, rw timelock at at)
  ]
  run-Closed (cancels_now ∷ cs) due h e = elim (cancel-cases (run r cs)) [
    | inl same ↦ Closed-later r cancels_now cs due (run-Closed cs due (rw same at h) (rw same at e))
    | inr closed ↦ absurd (ground arith)
  ]
  run-Closed (finalizes_at u ∷ cs) due h e =
      elim (finalize-cases (run r cs) u (λ q. rw q at (run-IsSound r cs s).phase)) [
        | inl same ↦
            Closed-later r (finalizes_at u) cs due (run-Closed cs due (rw same at h) (rw same at e))
        | inr (due', done, _, _, _) ↦ absurd (cc (rw done at h))
      ]

  run-Executed : (cs : List Call) → (run r cs).status ≡ executed → Executed r cs
  unfolding run step
  run-Executed [] h = absurd (ground arith)
  run-Executed (approves_by g t ∷ cs) h = elim (approve-cases (run r cs) g t) [
    | inl same ↦ Executed-later r (approves_by g t) cs (run-Executed cs (rw same at h))
    | inr (done, pushed, early) ↦ absurd (unfold push_approval in ground arith)
  ]
  run-Executed (cancels_now ∷ cs) h = elim (cancel-cases (run r cs)) [
    | inl same ↦ Executed-later r cancels_now cs (run-Executed cs (rw same at h))
    | inr closed ↦ absurd (ground arith)
  ]
  run-Executed (finalizes_at u ∷ cs) h =
      elim (finalize-cases (run r cs) u (λ q. rw q at (run-IsSound r cs s).phase)) [
        | inl same ↦ Executed-later r (finalizes_at u) cs (run-Executed cs (rw same at h))
        | inr (due, done, waits, at, late) ↦
            let (_, _, replaced, device) = run-SameTerms r cs in
            (
              u,
              due,
              [],
              cs,
              refl,
              done ∙ (λ i.
                  some (ok (replaced i, device i), record (run r cs) { status = executed })),
              run-Closed cs due waits at,
              late,
            )
      ]

  run-Accepted :
      (cs : List Call) (g : Str)
      → contains g (run r cs).approvals ≡ true
      → (contains g r.approvals ≡ true) ⊎ Accepted r cs g
  unfolding run step
  run-Accepted [] g m = inl m
  run-Accepted (approves_by h t ∷ cs) g m = elim (approve-cases (run r cs) h t) [
    | inl same ↦ carried r (approves_by h t) cs g (run-Accepted cs g (rw same at m))
    | inr (done, pushed, early) ↦ elim (push-contains (run r cs) h g t (rw pushed at m)) [
      | inl before ↦ carried r (approves_by h t) cs g (run-Accepted cs g before)
      | inr same ↦ rw (← same) (inr (t, [], cs, refl, done))
    ]
  ]
  run-Accepted (cancels_now ∷ cs) g m = carried r cancels_now cs g (
      run-Accepted cs g
        (elim (cancel-cases (run r cs)) [ inl same ↦ rw same at m | inr closed ↦ rw closed at m ]))
  run-Accepted (finalizes_at u ∷ cs) g m = carried r (finalizes_at u) cs g (
      run-Accepted cs g
        (elim (finalize-cases (run r cs) u (λ q. rw q at (run-IsSound r cs s).phase)) [
          | inl same ↦ rw same at m
          | inr (due, done, _, _, _) ↦ rw done at m
        ]))

full_at : (x : Option ℕ) (count quorum : ℕ) → Phase executed x count quorum → count ≡ quorum
full_at x count quorum h = ground arith

-- A request that `initiate` opened, whatever calls follow: when it is executed, its approvals are as
-- many different guardians as its quorum, each of whom has a call that approved it; and a call of
-- `finalize` executed it, at a time no earlier than the timelock (modulo 2 ^ 64) after the approval,
-- among the calls before it, that reached the quorum.
pub executed_accounts :
    (id : ℕ) (wallet initiator : Str) (replaced : Option Str) (device : Str)
    (guardians quorum timelock now : ℕ) (r : RecoveryRequest) (cs : List Call)
    → initiate id wallet initiator replaced device guardians quorum timelock now ≡ ok r
    → (run r cs).status ≡ executed
    → Nodup (run r cs).approvals
      × (length (run r cs).approvals ≡ r.quorum_snapshot)
      × All (Accepted r cs) (run r cs).approvals
      × Executed r cs
executed_accounts id wallet initiator replaced device guardians quorum timelock now r cs h done =
    let (s, fresh, empty) =
      initiate-ok id wallet initiator replaced device guardians quorum timelock now r h in
    let sound = run-IsSound r cs s in
    let (same, _, _, _) = run-SameTerms r cs in
    (
      sound.distinct,
      full_at (run r cs).execute_after (length (run r cs).approvals) (run r cs).quorum_snapshot
            (rw done at sound.phase)
          ∙ same,
      All-of_contains (Accepted r cs) (run r cs).approvals (λ g m.
          elim (run-Accepted r s fresh cs g m) [
            | inl before ↦ absurd (unfold contains in ground arith)
            | inr accepted ↦ accepted
          ]),
      run-Executed r s fresh cs done,
    )
