-- ===== src/TssProto/Transport.antt =====
-- crates/keymesh-tss-proto/src/transport.rs: the simulated transport is that of keymesh-tss, comments aside,
-- so it is Tss.Transport, but for the rounds that its check allows.
use key_mesh.Prelude.{◌≡◌, refl, ◌||◌, [], ◌∷◌, ◌++◌, ltb, ◌==◌, arith}
use key_mesh.Prelude.Text.{Str, text, decimal}
use key_mesh.Prelude.Outcome.{Result, ok, ◌>>◌, fail_if}
use key_mesh.Tss.Transport
use key_mesh.Tss.Transport.{TransportMessage, SimulatedTransport}

unfoldable pub check_round_order : SimulatedTransport → Result (Unit {0}) Str
check_round_order [] = ok tt
check_round_order (m ∷ messages) = do
  fail_if (m.round == 0 || ltb 3 m.round) (text "invalid round " ++ decimal m.round)
  check_round_order messages

-- The rounds of the prototype are among those of keymesh-tss.
pub check_round_order_narrower :
    (messages : SimulatedTransport)
    → check_round_order messages ≡ ok tt
    → Transport.check_round_order messages ≡ ok tt
unfolding check_round_order Transport.check_round_order
check_round_order_narrower [] h = refl
check_round_order_narrower (m ∷ messages) h =
    let more = check_round_order_narrower messages (ground (arith, h)) in ground (arith, h, more)
