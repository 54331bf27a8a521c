-- ===== src/Tss/Network.antt =====
-- crates/keymesh-tss/src/network.rs: frames, and the TCP transport that authenticates each envelope.
--
-- `Socket` is the connection of the crate tokio and `Json` the crate serde_json, each with what the code
-- relies on. An operation on `&mut self` returns the new transport beside its result, on errors too; an
-- `async` operation runs to its end. The error of a socket or of JSON is a text.
pub mod Frames
pub mod Reception
pub mod InMemory
use key_mesh.Prelude.{
  ℕ, ◌+◌, ◌*◌, ◌%◌, ◌^◌, ◌≤◌, ◌<◌, ◌≡◌, Bool, true, false, not, ◌&&◌, ◌||◌, List, [], ◌∷◌, ◌++◌,
  Option, none, some, ltb, ◌==◌, if◌then◌else◌, length, take, drop,
}
use key_mesh.Prelude.Bytes.{to_be_bytes, from_be_bytes}
use key_mesh.Prelude.Text.{Str, text, decimal}
use key_mesh.Prelude.Outcome.{Result, ok, err, ◌>>=◌, ◌>>◌, fail_if}
use key_mesh.Tss.Envelope.{
  TssEnvelope, ParticipantIdentity, Ecdsa, verify_envelope, validate_against,
}

abbrev pub frame_version : ℕ
frame_version = 1

abbrev pub max_tss_message_bytes : ℕ
max_tss_message_bytes = 64 * 1024

pub record FramedEnvelope : Type 0 where
  pub version : ℕ
  pub envelope : TssEnvelope

-- What is written is never empty, and is read back.
pub record Json : Type 0 where
  pub to_vec : FramedEnvelope → Result (List ℕ) Str
  pub from_slice : List ℕ → Result FramedEnvelope Str
  pub to_vec-nonempty :
      (f : FramedEnvelope) (bytes : List ℕ) → to_vec f ≡ ok bytes → 0 < length bytes
  pub from_slice-to_vec :
      (f : FramedEnvelope) (bytes : List ℕ) → to_vec f ≡ ok bytes → from_slice bytes ≡ ok f

-- A connection `C` to a peer at an address `A`. `pending` is what the peer has sent: where it is enough,
-- reading takes it from the front.
pub record Socket (A C : Type 0) : Type 0 where
  pub dial : A → Result C Str
  pub accept : A → Result C Str
  pub write_all : C → List ℕ → Result (Unit {0}) Str × C
  pub read_exact : C → ℕ → Result (List ℕ) Str × C
  pub pending : C → List ℕ
  pub read_exact-ready :
      (c : C) (n : ℕ)
      → n ≤ length (pending c)
      → ((read_exact c n).0 ≡ ok (take n (pending c)))
        × (pending (read_exact c n).1 ≡ drop n (pending c))

too_large : ℕ → Str
too_large n =
    text "frame too large: " ++ (decimal n ++ (text " > " ++ decimal max_tss_message_bytes))

unfoldable pub encode_frame : Json → TssEnvelope → Result (List ℕ) Str
unfolding too_large
encode_frame json envelope = do
  bytes ← json.to_vec (record { version = frame_version; envelope = envelope })
  fail_if (ltb max_tss_message_bytes (length bytes)) (too_large (length bytes))
  ok bytes

unfoldable pub decode_frame : Json → List ℕ → Result TssEnvelope Str
unfolding too_large
decode_frame json bytes = do
  fail_if (ltb max_tss_message_bytes (length bytes)) (too_large (length bytes))
  framed ← json.from_slice bytes
  fail_if (not (framed.version == frame_version)) (text "frame version mismatch")
  ok framed.envelope

-- `map_err(|e| format!("{message}{e}"))` on the result beside a state, and then `?`.
abbrev pub then_on {ℓ κ} :
    {C : Type ℓ} {B : Type κ} {D : Type 0}
    → Str
    → Result D Str × C
    → (D → C → Result B Str × C)
    → Result B Str × C
then_on message (ok a, c) k = k a c
then_on message (err e, c) k = (err (message ++ e), c)

module _ {A C : Type 0} (json : Json) (socket : Socket A C) where
  -- The bytes of a frame behind its length; the cast to `u32` cannot fail below the limit.
  unfoldable pub write_frame : C → TssEnvelope → Result (Unit {0}) Str × C
  write_frame c envelope = elim (encode_frame json envelope) [
    | err e ↦ (err e, c)
    | ok bytes ↦
        if not (ltb (length bytes) (2 ^ 32))
        then (err (text "frame too large"), c)
        else then_on (text "write length failed: ")
            (socket.write_all c (to_be_bytes 4 (length bytes)))
            (λ _ c'.
              then_on (text "write frame failed: ") (socket.write_all c' bytes)
                (λ _ c''. (ok tt, c'')))
  ]

  unfoldable pub read_frame : C → Result TssEnvelope Str × C
  read_frame c = then_on (text "read length failed: ") (socket.read_exact c 4) (λ len_bytes c'.
      let len = from_be_bytes len_bytes in
      if len == 0 || ltb max_tss_message_bytes len
      then (err (text "invalid frame length: " ++ decimal len), c')
      else then_on (text "read frame failed: ") (socket.read_exact c' len)
          (λ buf c''. (decode_frame json buf, c'')))

pub data TcpMode (A : Type 0) : Type 0 where
  client server : A → TcpMode A

pub record SessionContext : Type 0 where
  pub session : List ℕ
  pub wallet : List ℕ
  pub chain : ℕ

-- The listener is not kept: nothing reads it after `accept`.
pub record TcpAuthenticatedTransport (A C K : Type 0) : Type 0 where
  pub mode : TcpMode A
  pub stream : Option C
  pub authenticated : Bool
  pub expected_session : Option SessionContext
  pub peer_identity : Option (ParticipantIdentity K)

unfoldable pub new_transport :
    {A C K : Type 0}
    → TcpMode A
    → Option SessionContext
    → Option (ParticipantIdentity K)
    → TcpAuthenticatedTransport A C K
new_transport mode expected_session peer_identity = record {
  mode = mode;
  stream = none;
  authenticated = false;
  expected_session = expected_session;
  peer_identity = peer_identity;
}

-- The session binding of an envelope: its own digest and version stand for the expected ones.
unfoldable pub check_session : Option SessionContext → TssEnvelope → Result (Unit {0}) Str
check_session none e = ok tt
check_session (some ctx) e =
    elim (validate_against e ctx.session ctx.wallet ctx.chain e.digest e.protocol_version) [
      | ok _ ↦ ok tt
      | err x ↦ err (text "session binding failed: " ++ x)
    ]

module _ {A C K X S : Type 0} (json : Json) (socket : Socket A C) (ecdsa : Ecdsa K X S) where
  abbrev opened :
      TcpAuthenticatedTransport A C K
      → Result C Str
      → Result (Unit {0}) Str × TcpAuthenticatedTransport A C K
  opened t (ok c) = (ok tt, record t { stream = some c })
  opened t (err e) = (err e, t)

  unfoldable pub connect :
      TcpAuthenticatedTransport A C K → Result (Unit {0}) Str × TcpAuthenticatedTransport A C K
  connect t = elim t.mode [
    | client addr ↦ opened t (socket.dial addr)
    | server addr ↦ opened t (socket.accept addr)
  ]

  unfoldable pub authenticate :
      TcpAuthenticatedTransport A C K
      → ParticipantIdentity K
      → Result (Unit {0}) Str × TcpAuthenticatedTransport A C K
  authenticate t identity = (ok tt, record t { authenticated = true })

  unfoldable pub send :
      TcpAuthenticatedTransport A C K
      → TssEnvelope
      → Result (Unit {0}) Str × TcpAuthenticatedTransport A C K
  send t envelope =
      if not t.authenticated then (err (text "not authenticated"), t) else elim t.stream [
        | none ↦ (err (text "not connected"), t)
        | some c ↦ elim (check_session t.expected_session envelope) [
          | err e ↦ (err e, t)
          | ok _ ↦
              let (sent, c') = write_frame json socket c envelope in
              (sent, record t { stream = some c' })
        ]
      ]

  -- The checks on a frame that was read, in their order.
  unfoldable pub check_peer :
      Option (ParticipantIdentity K) → Option SessionContext → TssEnvelope → Result TssEnvelope Str
  check_peer none expected_session env = err (text "missing peer identity")
  check_peer (some peer) expected_session env = do
    fail_if (not (verify_envelope ecdsa peer env)) (text "peer authentication failed")
    check_session expected_session env
    ok env

  abbrev received :
      TcpAuthenticatedTransport A C K
      → Result TssEnvelope Str × C
      → Result TssEnvelope Str × TcpAuthenticatedTransport A C K
  received t (err e, c) = (err e, record t { stream = some c })
  received t (ok env, c) =
      (check_peer t.peer_identity t.expected_session env, record t { stream = some c })

  unfoldable pub receive :
      TcpAuthenticatedTransport A C K → Result TssEnvelope Str × TcpAuthenticatedTransport A C K
  receive t = if not t.authenticated then (err (text "not authenticated"), t) else elim t.stream [
    | none ↦ (err (text "not connected"), t)
    | some c ↦ received t (read_frame json socket c)
  ]

  unfoldable pub close :
      TcpAuthenticatedTransport A C K → Result (Unit {0}) Str × TcpAuthenticatedTransport A C K
  close t = (ok tt, record t { stream = none })
