-- ===== src/Tss/Synedrion/Seating.antt =====
-- `do_rotation_via_resharing` of crates/keymesh-tss/src/lifecycle.rs: whom the names of the new participants
-- stand for.
use key_mesh.Prelude.{
  ℕ, zero, suc, ◌+◌, ◌%◌, Bool, true, false, List, [], ◌∷◌, ◌++◌, Option, none, some, get_elem?,
  if◌then◌else◌,
}
use key_mesh.Prelude.Bytes.{bytes_eq}
use key_mesh.Prelude.Text.{Str, text, decimal}
use key_mesh.Prelude.Outcome.{ok}
use key_mesh.Prelude.Panics.{Attempt, ◌>>=◌, unwrap}
use key_mesh.Tss.Errors.{TssError}
use key_mesh.Tss.Key.{Participant}
use key_mesh.Tss.Synedrion.{Holding, Synedrion}

unfoldable pub alias : ℕ → Option Str
alias zero = some (text "A")
alias (suc zero) = some (text "B")
alias (suc (suc zero)) = some (text "C")
alias (suc (suc (suc zero))) = some (text "D")
alias (suc (suc (suc (suc zero)))) = some (text "E")
alias _ = none

abbrev pub with_alias : Option Str → ℕ → List (Str × ℕ) → List (Str × ℕ)
with_alias none idx names = names
with_alias (some name) idx names = (name, idx) ∷ names

-- `name_to_old_idx` of the participants from `idx` on, the latest entry first.
unfoldable pub name_to_old_idx : (idx count : ℕ) → List (Str × ℕ) → List (Str × ℕ)
name_to_old_idx idx zero names = names
name_to_old_idx idx (suc count) names =
    name_to_old_idx (suc idx) count
      (with_alias (alias idx) idx ((text "P" ++ decimal idx, idx) ∷ names))

unfoldable pub get_name : List (Str × ℕ) → Str → Option ℕ
get_name [] name = none
get_name ((n, idx) ∷ names) name =
    let rest = get_name names name in if bytes_eq n name then some idx else rest

-- A new participant: whether it is fresh, its signer and its verifier.
pub record Seat (X V : Type 0) : Type 0 where
  pub fresh : Bool
  pub signer : X
  pub verifier : V

module _ {K X V Share Aux Point Init Whole Seed : Type 0}
    (synedrion : Synedrion K X V Share Aux Point Init Whole Seed) where
  abbrev pub old_seat : Participant (Holding X V Share Aux) → Seat X V
  old_seat p = record { fresh = false; signer = p.holding.signer; verifier = p.holding.verifier }

  abbrev pub fresh_seat : ℕ → Seat X V
  fresh_seat new_idx = record {
    fresh = true;
    signer = synedrion.signer ((100 + new_idx) % 256);
    verifier = synedrion.verifying_key (synedrion.signer ((100 + new_idx) % 256));
  }

  -- The old participant that a name stands for, or else a fresh one.
  unfoldable pub seat_for :
      List (Participant (Holding X V Share Aux)) → ℕ → Option ℕ → Attempt (Seat X V) TssError
  seat_for participants new_idx none = some (ok (fresh_seat new_idx))
  seat_for participants new_idx (some old_idx) = do
    p ← unwrap (get_elem? participants old_idx)
    some (ok (old_seat p))

  unfoldable pub seats_from :
      List (Str × ℕ)
      → List (Participant (Holding X V Share Aux))
      → ℕ
      → List Str
      → Attempt (List (Seat X V)) TssError
  seats_from names participants new_idx [] = some (ok [])
  seats_from names participants new_idx (name ∷ ids) = do
    seat ← seat_for participants new_idx (get_name names name)
    seats ← seats_from names participants (suc new_idx) ids
    some (ok (seat ∷ seats))
