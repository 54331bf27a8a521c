-- ===== src/Tss/Session.antt =====
-- crates/keymesh-tss/src/session.rs and handshake.rs: what a session id binds, the status of a session,
-- and the check of two parties' bindings before they sign.
--
-- A byte array is a list, with its length in `IsTyped`; `transition` and `handshake_validate` name their
-- errors as the source does.
pub mod Binding
pub mod Handshake
use key_mesh.Prelude.{
  ℕ, ◌+◌, ◌^◌, ◌<◌, ◌≡◌, Bool, true, false, not, List, [], ◌∷◌, ◌++◌, ◌==◌, if◌then◌else◌, length,
  replicate,
}
use key_mesh.Prelude.Bytes.{to_be_bytes, bytes_eq}
use key_mesh.Prelude.Keccak.{Keccak}
use key_mesh.Prelude.Text.{Str, text, hex_encode}
use key_mesh.Prelude.Outcome.{Result, ok, err, ◌>>=◌, ◌>>◌, fail_if}

pub record SessionBinding : Type 0 where
  pub wallet : List ℕ
  pub chain_id : ℕ
  pub nonce : ℕ
  pub digest : List ℕ
  pub policy_version : ℕ
  pub signing_protocol_version : Str
  pub random : List ℕ

-- The bytes of the id.
abbrev pub SessionId : Type 0
SessionId = List ℕ

unfoldable pub to_hex : SessionId → Str
to_hex id = text "0x" ++ hex_encode id

unfoldable pub u256_be : ℕ → List ℕ
u256_be v = replicate 24 0 ++ to_be_bytes 8 v

unfoldable pub preimage : SessionBinding → List ℕ
unfolding u256_be
preimage b =
    b.wallet
    ++ (u256_be b.chain_id
        ++ (u256_be b.nonce
            ++ (b.digest
                ++ (u256_be b.policy_version ++ (b.signing_protocol_version ++ b.random)))))

unfoldable pub derive_session_id : Keccak → SessionBinding → SessionId
derive_session_id keccak b = keccak.hash (preimage b)

pub data SigningSessionStatus : Type 0 where
  started completed aborted failed : SigningSessionStatus

pub record SigningSession : Type 0 where
  pub session_id : SessionId
  pub binding : SessionBinding
  pub participants : List ℕ
  pub threshold : ℕ
  pub status : SigningSessionStatus

unfoldable pub new_session : Keccak → SessionBinding → List ℕ → ℕ → SigningSession
new_session keccak b participants threshold = record {
  session_id = derive_session_id keccak b;
  binding = b;
  participants = participants;
  threshold = threshold;
  status = started;
}

abbrev is_started : SigningSessionStatus → Bool
is_started started = true
is_started _ = false

unfoldable pub transition :
    SigningSession → SigningSessionStatus → Result (Unit {0}) Str × SigningSession
transition s to =
    if not (is_started s.status)
    then (err (text "cannot transition from terminal"), s)
    else if is_started to
    then (err (text "cannot transition back to Started"), s)
    else (ok tt, record s { status = to })

pub data HandshakeError : Type 0 where
  wallet_mismatch chain_mismatch digest_mismatch nonce_mismatch policy_version_mismatch :
      HandshakeError
  protocol_version_mismatch participant_set_mismatch threshold_mismatch : HandshakeError

-- The participants and the threshold are not looked at.
unfoldable pub handshake_validate :
    Keccak
    → (coordinator participant : SessionBinding) → (expected_participants : List ℕ)
    → (threshold : ℕ) → Result SessionId HandshakeError
unfolding derive_session_id
handshake_validate keccak coordinator participant expected_participants threshold = do
  fail_if (not (bytes_eq coordinator.wallet participant.wallet)) wallet_mismatch
  fail_if (not (coordinator.chain_id == participant.chain_id)) chain_mismatch
  fail_if (not (bytes_eq coordinator.digest participant.digest)) digest_mismatch
  fail_if (not (coordinator.nonce == participant.nonce)) nonce_mismatch
  fail_if (not (coordinator.policy_version == participant.policy_version)) policy_version_mismatch
  fail_if (not (bytes_eq coordinator.signing_protocol_version participant.signing_protocol_version))
      protocol_version_mismatch
  fail_if
      (not (bytes_eq (derive_session_id keccak coordinator) (derive_session_id keccak participant)))
      digest_mismatch
  ok (derive_session_id keccak coordinator)
