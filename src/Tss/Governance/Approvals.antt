-- ===== src/Tss/Governance/Approvals.antt =====
-- What an executable request of crates/keymesh-tss/src/governance.rs owes to the calls it received.
use key_mesh.Prelude.{
  ℕ, ◌+◌, ◌-◌, ◌%◌, ◌^◌, ◌≤◌, ◌≡◌, refl, sym, true, List, [], ◌∷◌, length, arith, Memᴰ, All, Nodup,
  inl, inr, ap, ◌∙◌, Option-cases, ◌⊎◌,
}
use key_mesh.Prelude.Members.{contains, All-of_contains}
use key_mesh.Prelude.Text.{Str}
use key_mesh.Quorum.{collecting, maturing, votes}
use key_mesh.Quorum.Account.{voted-Votes, maturing-Due}
use key_mesh.Tss.RotationStatus.{pending}
use key_mesh.Tss.Governance.{
  TssRotationRequest, is_executable, approve, cancel, mark_resharing, mark_resharing_with_time,
  mark_completed, mark_failed,
}
use key_mesh.Tss.Governance.Invariant.{
  IsSound, Call, step, approves_by, cancels_now, reshares_now, completes_now, fails_now,
  reshares_at, run, requests-IsSound,
}
use key_mesh.Tss.Governance.Refinement.{ballot_of, IsTimed, happened, events_of, rotation-refines}

votes-approves :
    (g : Str) (t : ℕ) (cs : List Call) → Memᴰ (votes g t) (events_of cs) → Memᴰ (approves_by g t) cs
unfolding events_of happened
votes-approves g t [] m = elim m [ ]
votes-approves g t (approves_by h u ∷ cs) (Memᴰ.head e) = Memᴰ.head cc
votes-approves g t (approves_by h u ∷ cs) (Memᴰ.tail m) = Memᴰ.tail (votes-approves g t cs m)
votes-approves g t (cancels_now ∷ cs) (Memᴰ.head e) = absurd cc
votes-approves g t (cancels_now ∷ cs) (Memᴰ.tail m) = Memᴰ.tail (votes-approves g t cs m)
votes-approves g t (reshares_at u ∷ cs) (Memᴰ.head e) = absurd cc
votes-approves g t (reshares_at u ∷ cs) (Memᴰ.tail m) = Memᴰ.tail (votes-approves g t cs m)
votes-approves g t (completes_now ∷ cs) (Memᴰ.head e) = absurd cc
votes-approves g t (completes_now ∷ cs) (Memᴰ.tail m) = Memᴰ.tail (votes-approves g t cs m)
votes-approves g t (fails_now ∷ cs) (Memᴰ.head e) = absurd cc
votes-approves g t (fails_now ∷ cs) (Memᴰ.tail m) = Memᴰ.tail (votes-approves g t cs m)
votes-approves g t (reshares_now ∷ cs) m = Memᴰ.tail (votes-approves g t cs m)

-- An executable request waits for a time that has come.
executable-stage :
    (r : TssRotationRequest) (now : ℕ)
    → IsSound r
    → is_executable r now ≡ true
    → (due : ℕ) × ((ballot_of r).stage ≡ maturing due)
      × (due ≤ now)
      × (length r.approvals ≡ r.quorum_required)
unfolding is_executable ballot_of
executable-stage r now s h = elim (Option-cases r.executable_at) [
  | inl never ↦ absurd (ground arith)
  | inr (due, e) ↦ (due, ground arith, ground arith, ground arith)
]

step-quorum : (r : TssRotationRequest) (c : Call) → ((step r c).quorum_required ≡ r.quorum_required)
unfolding step approve cancel mark_resharing mark_resharing_with_time mark_completed mark_failed
step-quorum r c = ground arith

-- The calls leave the quorum as it is.
run-quorum :
    (r : TssRotationRequest) (cs : List Call) → (run r cs).quorum_required ≡ r.quorum_required
unfolding run
run-quorum r [] = refl
run-quorum r (c ∷ cs) = step-quorum (run r cs) c ∙ run-quorum r cs

-- The guardian approved at some time.
abbrev pub Approved : List Call → Str → Type 0
Approved cs g = (t : ℕ) × Memᴰ (approves_by g t) cs

-- The end of the timelock, counted from an approval, has come.
abbrev pub Elapsed : List Call → (timelock now : ℕ) → Type 0
Elapsed cs timelock now =
    (g : Str) × (t : ℕ) × Memᴰ (approves_by g t) cs × ((t + timelock) % 2 ^ 64 ≤ now)

collecting-stage :
    (r : TssRotationRequest)
    → r.status ≡ pending
    → (ballot_of r).stage ≡ collecting (r.quorum_required - length r.approvals)
unfolding ballot_of
collecting-stage r p = rw p refl

module _ (r : TssRotationRequest) (cs : List Call) (s : IsSound r) (p : r.status ≡ pending)
    (timed : All IsTimed cs) where
  -- Who is among the approvals of a request had approved it before, or does so in the calls.
  approvals-Approved :
      (g : Str)
      → contains g (run r cs).approvals ≡ true
      → (contains g r.approvals ≡ true) ⊎ Approved cs g
  unfolding ballot_of
  approvals-Approved g h =
      elim (voted-Votes (ballot_of r) (events_of cs) g
        (sym (ap (λ b. b.voted g) (rotation-refines r cs s timed)) ∙ h)) [
          | inl before ↦ inl before
          | inr (t, m) ↦ inr (t, votes-approves g t cs m)
        ]

  due-Elapsed :
      (due now : ℕ)
      → (ballot_of (run r cs)).stage ≡ maturing due
      → due ≤ now
      → Elapsed cs r.timelock_seconds now
  unfolding ballot_of
  due-Elapsed due now h late =
      let (g, t, m, same) =
        maturing-Due (ballot_of r) (events_of cs) (r.quorum_required - length r.approvals) due
          (collecting-stage r p) (sym (ap (λ b. b.stage) (rotation-refines r cs s timed)) ∙ h) in
      (g, t, votes-approves g t cs m, omega arith)

  -- What the calls owe to an executable request that had no approvals before them.
  pub executable-Approved :
      (now : ℕ)
      → r.approvals ≡ []
      → is_executable (run r cs) now ≡ true
      → Nodup (run r cs).approvals
        × (length (run r cs).approvals ≡ r.quorum_required)
        × All (Approved cs) (run r cs).approvals
        × Elapsed cs r.timelock_seconds now
  executable-Approved now none_yet h =
      let sound = requests-IsSound r cs s in
      let (due, at, late, full) = executable-stage (run r cs) now sound h in
      (
        sound.distinct,
        full ∙ run-quorum r cs,
        All-of_contains (Approved cs) (run r cs).approvals (λ g m. elim (approvals-Approved g m) [
          | inl before ↦ absurd (unfold contains in ground arith)
          | inr approved ↦ approved
        ]),
        due-Elapsed due now at late,
      )
