-- ===== src/Quorum/Account.antt =====
-- What a ballot owes to its history: the votes of it, and the time that it waits for.
use key_mesh.Prelude.{
  ℕ, ◌+◌, ◌%◌, ◌^◌, ◌≡◌, ◌⊎◌, refl, sym, Bool, true, List, [], ◌∷◌, arith, Memᴰ, inl, inr,
  Bool-cases,
}
use key_mesh.Prelude.Bytes.{bytes_eq_iff}
use key_mesh.Prelude.Text.{Str}
use key_mesh.Quorum.{
  Stage, collecting, maturing, Ballot, Event, votes, with_vote, closer, begin, stage_after,
  voters_after, advance, replay,
}

-- A vote of this guardian at some time.
abbrev pub Votes : List Event → Str → Type 0
Votes es g = (t : ℕ) × Memᴰ (votes g t) es

-- The time is the end of the timelock, counted from a vote.
abbrev pub Due : List Event → (timelock due : ℕ) → Type 0
Due es timelock due = (g : Str) × (t : ℕ) × Memᴰ (votes g t) es × (due ≡ (t + timelock) % 2 ^ 64)

Due-later :
    (e : Event) (es : List Event) (timelock due : ℕ)
    → Due es timelock due
    → Due (e ∷ es) timelock due
Due-later e es timelock due (g, t, m, same) = (g, t, Memᴰ.tail m, same)

voters-cases :
    (s : Stage) (voted : Str → Bool) (e : Event) (g : Str)
    → voters_after s voted e g ≡ true
    → (voted g ≡ true) ⊎ ((t : ℕ) × (e ≡ votes g t))
unfolding voters_after with_vote
voters-cases (collecting missing) voted (votes guardian t) g h = elim (Bool-cases (voted g)) [
  | inl old ↦ inl old
  | inr new ↦ inr (t, rw ((bytes_eq_iff guardian g).0 (ground arith)) refl)
]
voters-cases s voted e g h = inl (ground arith)

-- Who has voted had voted before, or votes in the history.
pub voted-Votes :
    (b : Ballot) (es : List Event) (g : Str)
    → (replay b es).voted g ≡ true
    → (b.voted g ≡ true) ⊎ Votes es g
unfolding replay advance
voted-Votes b [] g h = inl h
voted-Votes b (e ∷ es) g h = elim (voters-cases (replay b es).stage (replay b es).voted e g h) [
  | inl old ↦ elim (voted-Votes b es g old) [
    | inl first ↦ inl first
    | inr (t, m) ↦ inr (t, Memᴰ.tail m)
  ]
  | inr (t, same) ↦ inr (t, Memᴰ.head (sym same))
]

-- A wait is one that was there, or starts with a vote.
stage-cases :
    (s : Stage) (voted : Str → Bool) (timelock due : ℕ) (e : Event)
    → stage_after s voted timelock e ≡ maturing due
    → (s ≡ maturing due) ⊎ ((g : Str) × (t : ℕ) × (e ≡ votes g t) × (due ≡ (t + timelock) % 2 ^ 64))
unfolding stage_after closer begin
stage-cases (collecting missing) voted timelock due (votes g t) h = inr (g, t, refl, ground arith)
stage-cases s voted timelock due e h = inl (ground arith)

replay-timelock : (b : Ballot) (es : List Event) → (replay b es).timelock ≡ b.timelock
unfolding replay advance
replay-timelock b [] = refl
replay-timelock b (e ∷ es) = replay-timelock b es

-- A ballot that collected at first waits for the end of a timelock that a vote of the history started.
pub maturing-Due :
    (b : Ballot) (es : List Event) (missing due : ℕ)
    → b.stage ≡ collecting missing
    → (replay b es).stage ≡ maturing due
    → Due es b.timelock due
unfolding replay advance
maturing-Due b [] missing due early h = absurd (ground arith)
maturing-Due b (e ∷ es) missing due early h =
    elim (stage-cases (replay b es).stage (replay b es).voted (replay b es).timelock due e h) [
      | inl before ↦ Due-later e es b.timelock due (maturing-Due b es missing due early before)
      | inr (g, t, same, at) ↦ (g, t, Memᴰ.head (sym same), rw (← replay-timelock b es) at)
    ]
