-- ===== src/Tss/Transport.antt =====
-- crates/keymesh-tss/src/transport.rs: the simulated transport with its failures and its checks.
pub mod Checks
pub mod Failures
use key_mesh.Prelude.{
  ℕ, ◌≡◌, Bool, true, false, not, ◌&&◌, ◌||◌, List, [], ◌∷◌, ◌++◌, ltb, ◌==◌, if◌then◌else◌, length,
}
use key_mesh.Prelude.Bytes.{bytes_eq}
use key_mesh.Prelude.Text.{Str, text, decimal}
use key_mesh.Prelude.Outcome.{Result, ok, err, ◌>>=◌, ◌>>◌, fail_if}

pub record TransportMessage : Type 0 where
  pub session_id : List ℕ
  pub sender : ℕ
  pub round : ℕ
  pub payload : List ℕ
  pub digest : List ℕ

-- The transport is the list of its messages.
abbrev pub SimulatedTransport : Type 0
SimulatedTransport = List TransportMessage

unfoldable pub send_message : SimulatedTransport → TransportMessage → SimulatedTransport
send_message messages msg = messages ++ (msg ∷ [])

unfoldable pub drop_from : SimulatedTransport → ℕ → SimulatedTransport
drop_from [] sender = []
drop_from (m ∷ messages) sender =
    let rest = drop_from messages sender in if m.sender == sender then rest else m ∷ rest

unfoldable pub duplicate_first : SimulatedTransport → SimulatedTransport
duplicate_first [] = []
duplicate_first (m ∷ messages) = (m ∷ messages) ++ (m ∷ [])

unfoldable pub reorder : SimulatedTransport → SimulatedTransport
reorder (m ∷ n ∷ messages) = n ∷ m ∷ messages
reorder messages = messages

unfoldable pub modify_first_digest : SimulatedTransport → List ℕ → SimulatedTransport
modify_first_digest [] new_digest = []
modify_first_digest (m ∷ messages) new_digest = record m { digest = new_digest } ∷ messages

unfoldable pub verify_binding :
    SimulatedTransport → (expected_session expected_digest : List ℕ) → Result (Unit {0}) Str
verify_binding [] expected_session expected_digest = ok tt
verify_binding (m ∷ messages) expected_session expected_digest = do
  fail_if (not (bytes_eq m.session_id expected_session))
      (text "session mismatch from " ++ decimal m.sender)
  fail_if (not (bytes_eq m.digest expected_digest))
      (text "digest mismatch from " ++ decimal m.sender)
  verify_binding messages expected_session expected_digest

-- `seen` holds the sender and the round of each message before.
unfoldable pub seen_before : List (ℕ × ℕ) → ℕ → ℕ → Bool
seen_before [] sender round = false
seen_before ((a, b) ∷ seen) sender round =
    (a == sender && b == round) || seen_before seen sender round

no_duplicate_after : List (ℕ × ℕ) → SimulatedTransport → Result (Unit {0}) Str
no_duplicate_after seen [] = ok tt
no_duplicate_after seen (m ∷ messages) = do
  fail_if (seen_before seen m.sender m.round)
      (text "duplicate round " ++ (decimal m.round ++ (text " from " ++ decimal m.sender)))
  no_duplicate_after ((m.sender, m.round) ∷ seen) messages

unfoldable pub check_no_duplicate : SimulatedTransport → Result (Unit {0}) Str
unfolding no_duplicate_after
check_no_duplicate messages = no_duplicate_after [] messages

unfoldable pub check_round_order : SimulatedTransport → Result (Unit {0}) Str
check_round_order [] = ok tt
check_round_order (m ∷ messages) = do
  fail_if (m.round == 0 || ltb 5 m.round) (text "invalid round " ++ decimal m.round)
  check_round_order messages
