-- ===== src/Quorum/Order.antt =====
-- The order of votes that come at one time: it does not change what the ballot comes to.
use key_mesh.Prelude.{ℕ, ◌≡◌, refl, ◌∙◌, Bool, false, List, map, arith, Bool-cases, inl, inr}
use mathlib.Core.Logic.{∥∥₁_elim}
use mathlib.Core.List.{Permᴰ, Perm}
use key_mesh.Prelude.Text.{Str}
use key_mesh.Prelude.Bytes.{bytes_eq, bytes_eq_iff}
use key_mesh.Quorum.{
  Stage, collecting, Ballot, Event, votes, with_vote, closer, stage_after, voters_after, advance,
  replay,
}

-- Votes at one time, the latest first.
abbrev pub votes_at : ℕ → List Str → List Event
votes_at now = map (λ g. votes g now)

-- Two ballots that behave alike: once votes count no more, who voted does not matter.
abbrev SameVoters : Stage → (v w : Str → Bool) → Type 0
SameVoters (collecting missing) v w = (g : Str) → v g ≡ w g
SameVoters _ v w = Unit

Alike : Ballot → Ballot → Type 0
Alike a b = (a.stage ≡ b.stage) × (a.timelock ≡ b.timelock) × SameVoters a.stage a.voted b.voted

same_voters :
    (s : Stage) (v w : Str → Bool)
    → ((missing : ℕ) → s ≡ collecting missing → (g : Str) → v g ≡ w g)
    → SameVoters s v w
same_voters (collecting missing) v w h = h missing refl
same_voters _ v w h = tt

vote-SameVoters :
    (s : Stage) (v w : Str → Bool) (timelock : ℕ) (g : Str) (now : ℕ)
    → SameVoters s v w
    → (stage_after s v timelock (votes g now) ≡ stage_after s w timelock (votes g now))
      × SameVoters
          (stage_after s v timelock (votes g now))
          (voters_after s v (votes g now))
          (voters_after s w (votes g now))
unfolding stage_after voters_after with_vote
vote-SameVoters (collecting missing) v w timelock g now h =
    (rw (h g) refl, same_voters _ _ _ (λ n e x. rw (h x) refl))
vote-SameVoters s v w timelock g now h = (refl, tt)

-- Two votes at one time, in either order.
swap-SameVoters :
    (s : Stage) (v : Str → Bool) (timelock : ℕ) (g k : Str) (now : ℕ)
    → let s1 = stage_after s v timelock (votes g now) in
      let v1 = voters_after s v (votes g now) in
      let s2 = stage_after s v timelock (votes k now) in
      let v2 = voters_after s v (votes k now) in
      (stage_after s1 v1 timelock (votes k now) ≡ stage_after s2 v2 timelock (votes g now))
      × SameVoters
          (stage_after s1 v1 timelock (votes k now))
          (voters_after s1 v1 (votes k now))
          (voters_after s2 v2 (votes g now))
unfolding stage_after voters_after with_vote closer
swap-SameVoters (collecting missing) v timelock g k now = elim (Bool-cases (bytes_eq g k)) [
  | inl same ↦ rw ((bytes_eq_iff g k).0 same) (refl, same_voters _ _ _ (λ n e x. refl))
  | inr apart ↦
      let apart' : bytes_eq k g ≡ false =
        ground (arith, apart, bytes_eq_iff g k, bytes_eq_iff k g) in
      (ground (arith, apart, apart'), same_voters _ _ _ (λ n e x. ground (arith, e, apart, apart')))
]
swap-SameVoters s v timelock g k now = (refl, tt)

SameVoters-trans :
    (s : Stage) (u v w : Str → Bool) → SameVoters s u v → SameVoters s v w → SameVoters s u w
SameVoters-trans (collecting missing) u v w h k = λ g. h g ∙ k g
SameVoters-trans _ u v w h k = tt

SameVoters-refl : (s : Stage) (v : Str → Bool) → SameVoters s v v
SameVoters-refl s v = same_voters s v v (λ n e g. refl)

Alike-refl : (a : Ballot) → Alike a a
unfolding Alike
Alike-refl a = (refl, refl, SameVoters-refl a.stage a.voted)

Alike-trans : (a b c : Ballot) → Alike a b → Alike b c → Alike a c
unfolding Alike
Alike-trans a b c (s, t, v) (s', t', v') =
    (s ∙ s', t ∙ t', SameVoters-trans a.stage a.voted b.voted c.voted v (rw s v'))

vote-Alike :
    (a b : Ballot) (g : Str) (now : ℕ)
    → Alike a b
    → Alike (advance a (votes g now)) (advance b (votes g now))
unfolding Alike advance
vote-Alike a b g now (s, t, v) =
    let (stage, voters) = vote-SameVoters a.stage a.voted b.voted a.timelock g now v in
    (rw (← s, ← t) stage, t, rw (← s) voters)

swap-Alike :
    (a : Ballot) (g k : Str) (now : ℕ)
    → Alike
        (advance (advance a (votes g now)) (votes k now))
        (advance (advance a (votes k now)) (votes g now))
unfolding Alike advance
swap-Alike a g k now =
    let (stage, voters) = swap-SameVoters a.stage a.voted a.timelock g k now in
    (stage, refl, voters)

order-Alike :
    (b : Ballot) (now : ℕ) {gs hs : List Str}
    → Permᴰ gs hs
    → Alike (replay b (votes_at now gs)) (replay b (votes_at now hs))
unfolding replay
order-Alike b now Permᴰ.nil = Alike-refl b
order-Alike b now (Permᴰ.cons {b = h} e p) = rw e (vote-Alike _ _ h now (order-Alike b now p))
order-Alike b now (Permᴰ.swap {a' = k'} {b' = g'} {l = gs} e e') =
    rw (e, e') (swap-Alike (replay b (votes_at now gs)) k' g' now)
order-Alike b now (Permᴰ.trans p q) = Alike-trans _ _ _ (order-Alike b now p) (order-Alike b now q)

Stage-set : IsSet Stage
Stage-set = hlevel

-- Votes at one time come to the same stage in every order.
pub replay-Perm :
    (b : Ballot) (now : ℕ) (gs hs : List Str)
    → Perm gs hs
    → (replay b (votes_at now gs)).stage ≡ (replay b (votes_at now hs)).stage
unfolding Alike
replay-Perm b now gs hs p = ∥∥₁_elim p (Stage-set _ _) (λ d. (order-Alike b now d).0)
