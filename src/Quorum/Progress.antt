-- ===== src/Quorum/Progress.antt =====
-- Enough different guardians carry a ballot to its end, and their order does not matter.
use key_mesh.Prelude.{
  ℕ, suc, ◌+◌, ◌%◌, ◌^◌, ◌≤◌, ◌≡◌, refl, ap, ◌∙◌, false, Bool, ◌||◌, List, [], ◌∷◌, length, arith,
}
use key_mesh.Prelude.Members.{contains}
use key_mesh.Prelude.Bytes.{bytes_eq}
use key_mesh.Prelude.Text.{Str}
use key_mesh.Quorum.{
  collecting, maturing, settled, Ballot, Event, votes, begins, settles, with_vote, closer, begin,
  stage_after, voters_after, advance, replay,
}

-- Guardians with the times of their votes, the latest first.
abbrev pub names : List (Str × ℕ) → List Str
names [] = []
names ((g, t) ∷ vs) = g ∷ names vs

unfoldable pub votes_of : List (Str × ℕ) → List Event
votes_of [] = []
votes_of ((g, t) ∷ vs) = votes g t ∷ votes_of vs

-- They differ from each other and from those who voted.
abbrev pub AreFresh : (Str → Bool) → List (Str × ℕ) → Type 0
AreFresh voted [] = Unit
AreFresh voted ((g, t) ∷ vs) =
    (contains g (names vs) ≡ false) × (voted g ≡ false) × AreFresh voted vs

-- A vote that is not the last.
vote-counts :
    (b : Ballot) (g : Str) (t missing : ℕ)
    → b.stage ≡ collecting (suc (suc missing))
    → b.voted g ≡ false
    → (advance b (votes g t)).stage ≡ collecting (suc missing)
unfolding advance stage_after closer
vote-counts b g t missing h new = ground arith

last-vote :
    (b : Ballot) (g : Str) (t : ℕ)
    → b.stage ≡ collecting 1
    → b.voted g ≡ false
    → (advance b (votes g t)).stage ≡ maturing ((t + b.timelock) % 2 ^ 64)
unfolding advance stage_after closer
last-vote b g t h new = ground arith

vote-voted :
    (b : Ballot) (g : Str) (t missing : ℕ) (h : Str)
    → b.stage ≡ collecting missing
    → (advance b (votes g t)).voted h ≡ b.voted h || bytes_eq g h
unfolding advance voters_after with_vote
vote-voted b g t missing h collects = ground arith

advance-timelock : (b : Ballot) (e : Event) → (advance b e).timelock ≡ b.timelock
unfolding advance
advance-timelock b e = refl

or_swap : (a b c : Bool) → (a || b) || c ≡ a || (c || b)
or_swap a b c = ground arith

replay-votes :
    (b : Ballot) (vs : List (Str × ℕ)) (missing : ℕ)
    → b.stage ≡ collecting (suc missing + length vs)
    → AreFresh b.voted vs
    → ((replay b (votes_of vs)).stage ≡ collecting (suc missing))
      × ((replay b (votes_of vs)).timelock ≡ b.timelock)
      × ((h : Str) → (replay b (votes_of vs)).voted h ≡ b.voted h || contains h (names vs))
unfolding replay votes_of contains
replay-votes b [] missing h fresh = (h ∙ ap collecting (omega arith), refl, λ k. ground arith)
replay-votes b ((g, t) ∷ vs) missing h (apart, new, fresh) =
    let (stage, timelock, voted) =
      replay-votes b vs (suc missing) (h ∙ ap collecting (omega arith)) fresh in
    (
      vote-counts (replay b (votes_of vs)) g t missing stage (voted g ∙ ground (arith, new, apart)),
      advance-timelock (replay b (votes_of vs)) (votes g t) ∙ timelock,
      λ k.
          vote-voted (replay b (votes_of vs)) g t (suc (suc missing)) k stage
          ∙ (ap (λ z. z || bytes_eq g k) (voted k)
              ∙ or_swap (b.voted k) (contains k (names vs)) (bytes_eq g k)),
    )

settles-due :
    (c : Ballot) (time now : ℕ)
    → c.stage ≡ maturing time
    → time ≤ now
    → (advance (advance c (begins now)) settles).stage ≡ settled
unfolding advance stage_after begin
settles-due c time now h due = ground arith

-- As many fresh votes as are missing start the wait at the last of them; once it is over, the ballot can
-- begin and be settled.
pub replay-settled :
    (b : Ballot) (g : Str) (t : ℕ) (vs : List (Str × ℕ)) (now : ℕ)
    → b.stage ≡ collecting (suc (length vs))
    → AreFresh b.voted ((g, t) ∷ vs)
    → (t + b.timelock) % 2 ^ 64 ≤ now
    → (replay b (settles ∷ begins now ∷ votes_of ((g, t) ∷ vs))).stage ≡ settled
unfolding replay votes_of
replay-settled b g t vs now h (apart, new, fresh) due =
    let (stage, timelock, voted) = replay-votes b vs 0 (h ∙ ap collecting (omega arith)) fresh in
    let matures =
      last-vote (replay b (votes_of vs)) g t stage (voted g ∙ ground (arith, new, apart)) in
    settles-due (advance (replay b (votes_of vs)) (votes g t))
      ((t + (replay b (votes_of vs)).timelock) % 2 ^ 64) now matures (rw timelock due)
