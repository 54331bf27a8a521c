-- ===== src/Tss/Network/InMemory.antt =====
-- crates/keymesh-tss/src/network.rs: the transport of two ends in one process, over two channels.
--
-- The channels are those of tokio, behind the record `Mpsc`; they share a state, in which envelopes wait.
-- `none` is a `recv` that waits.
use key_mesh.Prelude.{ℕ, Bool, true, false, not, List, ◌++◌, Option, none, some, if◌then◌else◌}
use key_mesh.Prelude.Text.{Str, text}
use key_mesh.Prelude.Outcome.{Result, ok, err}
use key_mesh.Tss.Envelope.{TssEnvelope, ParticipantIdentity}
use key_mesh.Tss.Network.{SessionContext, check_session}

-- `tokio::sync::mpsc` of envelopes: `unbounded_channel` gives the two ends, an error of `send` is its text,
-- and `recv` gives `none` of an envelope where the channel is closed.
pub record Mpsc (Channels Sender Receiver : Type 0) : Type 0 where
  pub unbounded_channel : Channels → (Sender × Receiver) × Channels
  pub send : Channels → Sender → TssEnvelope → Result (Unit {0}) Str × Channels
  pub recv : Channels → Receiver → Option (Option TssEnvelope × Channels)

pub record InMemoryAuthenticatedTransport (Sender Receiver : Type 0) : Type 0 where
  pub tx : Sender
  pub rx : Receiver
  pub authenticated : Bool
  pub expected_session : Option SessionContext

module _ {Channels Sender Receiver : Type 0} (mpsc : Mpsc Channels Sender Receiver) where
  abbrev Transport : Type 0
  Transport = InMemoryAuthenticatedTransport Sender Receiver

  unfoldable pub pair : Channels → (Transport × Transport) × Channels
  pair channels =
      let ((a_tx, b_rx), channels1) = mpsc.unbounded_channel channels in
      let ((b_tx, a_rx), channels2) = mpsc.unbounded_channel channels1 in
      (
        (
          record { tx = a_tx; rx = a_rx; authenticated = false; expected_session = none },
          record { tx = b_tx; rx = b_rx; authenticated = false; expected_session = none },
        ),
        channels2,
      )

  unfoldable pub with_session :
      Channels → (session_id wallet : List ℕ) (chain_id : ℕ) → (Transport × Transport) × Channels
  unfolding pair
  with_session channels session_id wallet chain_id =
      let ((a, b), channels1) = pair channels in
      let context : Option SessionContext =
        some (record { session = session_id; wallet = wallet; chain = chain_id }) in
      (
        (record a { expected_session = context }, record b { expected_session = context }),
        channels1,
      )

  unfoldable pub connect_in_memory : Transport → Result (Unit {0}) Str × Transport
  connect_in_memory t = (ok tt, t)

  -- The identity is not looked at.
  unfoldable pub authenticate_in_memory :
      {K : Type 0} → Transport → ParticipantIdentity K → Result (Unit {0}) Str × Transport
  authenticate_in_memory t identity = (ok tt, record t { authenticated = true })

  abbrev sent : Result (Unit {0}) Str × Channels → Result (Unit {0}) Str × Channels
  sent (ok _, channels) = (ok tt, channels)
  sent (err e, channels) = (err (text "send failed: " ++ e), channels)

  unfoldable pub send_in_memory :
      Transport → Channels → TssEnvelope → Result (Unit {0}) Str × Channels
  send_in_memory t channels envelope =
      if not t.authenticated
      then (err (text "not authenticated"), channels)
      else sent (mpsc.send channels t.tx envelope)

  -- What the session says of an envelope that arrived.
  unfoldable pub admitted : Option SessionContext → TssEnvelope → Result TssEnvelope Str
  admitted expected_session env = elim (check_session expected_session env) [
    | ok _ ↦ ok env
    | err e ↦ err e
  ]

  abbrev taken :
      Option SessionContext
      → Option (Option TssEnvelope × Channels)
      → Option (Result TssEnvelope Str × Channels)
  taken expected_session none = none
  taken expected_session (some (none, channels)) = some (err (text "channel closed"), channels)
  taken expected_session (some (some env, channels)) =
      some (admitted expected_session env, channels)

  unfoldable pub receive_in_memory :
      Transport → Channels → Option (Result TssEnvelope Str × Channels)
  unfolding admitted
  receive_in_memory t channels =
      if not t.authenticated
      then some (err (text "not authenticated"), channels)
      else taken t.expected_session (mpsc.recv channels t.rx)

  unfoldable pub close_in_memory : Transport → Result (Unit {0}) Str × Transport
  close_in_memory t = (ok tt, t)

  unfoldable pub session_binding : Transport → Option SessionContext
  session_binding t = t.expected_session
