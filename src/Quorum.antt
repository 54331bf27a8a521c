-- ===== src/Quorum.antt =====
-- What the two guardian state machines, crates/keymesh-core/src/recovery/mod.rs and
-- crates/keymesh-tss/src/governance.rs, promise: distinct votes up to a quorum, then a wait, then one
-- start. The votes are a set: their order and their storage are forgotten.
pub mod Account
pub mod Order
pub mod Progress
use key_mesh.Prelude.{
  ℕ, ◌+◌, ◌-◌, ◌%◌, ◌^◌, ◌≡◌, Bool, true, false, ◌||◌, List, [], ◌∷◌, leb, if◌then◌else◌,
}
use key_mesh.Prelude.Bytes.{bytes_eq}
use key_mesh.Prelude.Text.{Str}

-- `collecting` lacks some votes, `maturing` waits for a time, and `begun` is to be settled.
pub data Stage : Type 0 where
  collecting : (missing : ℕ) → Stage
  maturing : (due : ℕ) → Stage
  begun settled dropped : Stage

pub record Ballot : Type 0 where
  pub voted : Str → Bool
  pub timelock : ℕ
  pub stage : Stage

-- Two ballots that agree everywhere.
pub same_ballot :
    (a b : Ballot)
    → ((g : Str) → a.voted g ≡ b.voted g)
    → a.timelock ≡ b.timelock
    → a.stage ≡ b.stage
    → a ≡ b
same_ballot a b voted timelock stage =
    λ i. record { voted = λ g. voted g i; timelock = timelock i; stage = stage i }

pub data Event : Type 0 where
  votes : (guardian : Str) (now : ℕ) → Event
  begins : (now : ℕ) → Event
  settles fails withdraws : Event

unfoldable pub with_vote : (Str → Bool) → Str → Str → Bool
with_vote voted guardian other = voted other || bytes_eq guardian other

-- The stage after a vote that counts.
unfoldable pub closer : (missing due : ℕ) → Stage
closer missing due = if leb missing 1 then maturing due else collecting (missing - 1)

unfoldable pub begin : (due now : ℕ) → Stage
begin due now = if leb due now then begun else maturing due

unfoldable pub stage_after : Stage → (voted : Str → Bool) → (timelock : ℕ) → Event → Stage
unfolding closer begin
stage_after (collecting missing) voted timelock (votes guardian now) =
    if voted guardian then collecting missing else closer missing ((now + timelock) % 2 ^ 64)
stage_after (collecting missing) voted timelock withdraws = dropped
stage_after (maturing due) voted timelock (begins now) = begin due now
stage_after (maturing due) voted timelock withdraws = dropped
stage_after begun voted timelock settles = settled
stage_after begun voted timelock fails = dropped
stage_after begun voted timelock withdraws = dropped
stage_after stage voted timelock event = stage

unfoldable pub voters_after : Stage → (voted : Str → Bool) → Event → Str → Bool
unfolding with_vote
voters_after (collecting missing) voted (votes guardian now) = with_vote voted guardian
voters_after stage voted event = voted

unfoldable pub advance : Ballot → Event → Ballot
unfolding stage_after voters_after
advance b event = record {
  voted = voters_after b.stage b.voted event;
  timelock = b.timelock;
  stage = stage_after b.stage b.voted b.timelock event;
}

-- A history, its latest event first.
unfoldable pub replay : Ballot → List Event → Ballot
replay b [] = b
replay b (e ∷ es) = advance (replay b es) e
