-- ===== src/Tests/Messages.antt =====
-- Sessions, envelopes, frames and transports of crates/keymesh-tss on concrete messages.
use key_mesh.Prelude.{ℕ, ◌≡◌, ◌≢◌, refl, ap, true, List, [], ◌∷◌, none, some, replicate, arith}
use key_mesh.Prelude.Bytes.{bytes_eq, to_be_bytes, from_be_bytes}
use key_mesh.Prelude.Outcome.{ok}
use key_mesh.Tss.Session.{SessionBinding, preimage, derive_session_id, handshake_validate}
use key_mesh.Tss.Session.Binding.{session_id_collision}
use key_mesh.Tss.Envelope.{
  TssEnvelope, NetworkKeypair, ParticipantIdentity, to_sign_bytes, sign_envelope, verify_envelope,
  read_signature, check_wallet, identity_verify, validate_against,
}
use key_mesh.Tss.Envelope.Binding.{to_sign_bytes_inj}
use key_mesh.Tss.Envelope.Verification.{verify_envelope-sign_envelope}
use key_mesh.Tss.Network.{
  TcpAuthenticatedTransport, client, encode_frame, decode_frame, read_frame, receive, check_peer,
  check_session,
}
use key_mesh.Tss.Network.Frames.{read_frame-encode_frame}
use key_mesh.Tss.Network.Reception.{receive-authentic, InSession}
use key_mesh.Tss.Transport.{TransportMessage, verify_binding}
use key_mesh.Tss.Transport.Checks.{verify_binding_iff}
use key_mesh.Tests.Parameters.{
  constant_hash, trusting, sample, one_frame_json, json_write, loopback,
}

abbrev binding : SessionBinding
binding = record {
  wallet = replicate 20 1;
  chain_id = 31_337;
  nonce = 4;
  digest = replicate 32 2;
  policy_version = 1;
  signing_protocol_version = b'v' ∷ [];
  random = replicate 32 3;
}

abbrev next_binding : SessionBinding
next_binding = record binding { nonce = 5 }

binding-IsTyped : key_mesh.Tss.Session.Binding.IsTyped binding
binding-IsTyped = record {
  wallet_20 = refl;
  chain_id_u64 = omega arith;
  nonce_u64 = omega arith;
  digest_32 = refl;
  policy_version_u64 = omega arith;
  random_32 = refl;
}

next_binding-IsTyped : key_mesh.Tss.Session.Binding.IsTyped next_binding
next_binding-IsTyped = record {
  wallet_20 = refl;
  chain_id_u64 = omega arith;
  nonce_u64 = omega arith;
  digest_32 = refl;
  policy_version_u64 = omega arith;
  random_32 = refl;
}

ids_collide : derive_session_id constant_hash binding ≡ derive_session_id constant_hash next_binding
unfolding derive_session_id
ids_collide = refl

session_id_collision_example :
    (preimage binding ≢ preimage next_binding)
    × (constant_hash.hash (preimage binding) ≡ constant_hash.hash (preimage next_binding))
session_id_collision_example =
    session_id_collision constant_hash binding next_binding binding-IsTyped next_binding-IsTyped
      ids_collide (λ e. omega (arith, ap (λ (b : SessionBinding). b.nonce) e))

binding_id : derive_session_id constant_hash binding ≡ replicate 32 0
unfolding derive_session_id
binding_id = refl

sample-IsTyped : key_mesh.Tss.Envelope.Binding.IsTyped sample
sample-IsTyped = record {
  version_text = omega arith;
  session_32 = refl;
  wallet_20 = refl;
  chain_id_u64 = omega arith;
  type_text = omega arith;
  digest_32 = refl;
}

to_sign_bytes_inj_example : record sample { signature = none } ≡ record sample { signature = none }
to_sign_bytes_inj_example = to_sign_bytes_inj sample sample sample-IsTyped sample-IsTyped refl

abbrev identity : ParticipantIdentity ℕ
identity = record { id = 1; network_verifying_key = 7; wallet = replicate 20 2; chain_id = 31_337 }

verify_envelope-sign_envelope_example :
    verify_envelope trusting identity
      (sign_envelope trusting (record { signing_key = 7; verifying_key = 7 }) sample)
    ≡ true
verify_envelope-sign_envelope_example =
    verify_envelope-sign_envelope trusting (record { signing_key = 7; verifying_key = 7 }) identity
      sample refl refl refl refl

frame_encoded : encode_frame one_frame_json sample ≡ ok (b'{' ∷ b'}' ∷ [])
unfolding encode_frame json_write bytes_eq
frame_encoded = refl

-- Length 2, two bytes, and the first byte of what follows.
abbrev arrived : List ℕ
arrived = 0 ∷ 0 ∷ 0 ∷ 2 ∷ b'{' ∷ b'}' ∷ 8 ∷ []

read_frame-encode_frame_example :
    (decode_frame one_frame_json (b'{' ∷ b'}' ∷ []) ≡ ok sample)
    × ((read_frame one_frame_json loopback arrived).0 ≡ ok sample)
    × ((read_frame one_frame_json loopback arrived).1 ≡ 8 ∷ [])
unfolding to_be_bytes
read_frame-encode_frame_example =
    read_frame-encode_frame one_frame_json loopback sample (b'{' ∷ b'}' ∷ []) (8 ∷ []) arrived
      frame_encoded refl

abbrev connected : TcpAuthenticatedTransport ℕ (List ℕ) ℕ
connected = record {
  mode = client 0;
  stream = some arrived;
  authenticated = true;
  expected_session =
      some (record { session = replicate 32 1; wallet = replicate 20 2; chain = 31_337 });
  peer_identity = some identity;
}

sample_received : (receive one_frame_json loopback trusting connected).0 ≡ ok sample
unfolding receive read_frame decode_frame check_peer check_session verify_envelope check_wallet
    identity_verify read_signature validate_against bytes_eq from_be_bytes
sample_received = refl

receive-authentic_example :
    (true ≡ true)
    × ((c : List ℕ) × (connected.stream ≡ some c)
        × ((read_frame one_frame_json loopback c).0 ≡ ok sample))
    × ((peer : ParticipantIdentity ℕ) × (connected.peer_identity ≡ some peer)
        × (verify_envelope trusting peer sample ≡ true))
    × InSession connected.expected_session sample
receive-authentic_example =
    receive-authentic one_frame_json loopback trusting connected sample sample_received

abbrev first : TransportMessage
first = record {
  session_id = replicate 32 1;
  sender = 1;
  round = 1;
  payload = [];
  digest = replicate 32 3;
}

abbrev second : TransportMessage
second = record first { sender = 2 }

both_bound : verify_binding (first ∷ second ∷ []) (replicate 32 1) (replicate 32 3) ≡ ok tt
both_bound =
    (verify_binding_iff (first ∷ second ∷ []) (replicate 32 1) (replicate 32 3)).1
      ((refl, refl), ((refl, refl), tt))
