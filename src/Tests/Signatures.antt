-- ===== src/Tests/Signatures.antt =====
-- crates/keymesh-core/src/crypto/mod.rs and signing/ on concrete keys, texts and sessions.
use key_mesh.Prelude.{ℕ, ◌≡◌, refl, List, [], ◌∷◌, ◌++◌, length, replicate}
use key_mesh.Prelude.Bytes.{to_be_bytes, starts_with}
use key_mesh.Prelude.Text.{Str}
use key_mesh.Prelude.Outcome.{ok}
use key_mesh.Core.Crypto.{mock_sign, mock_tag, mock_crypto_provider}
use key_mesh.Core.Signing.{recovery_approval, composite, mock_sign_message}
use key_mesh.Core.Signing.Tss.{
  SigningSession, started, completed, new_participant_id, is_valid_participant_id,
  is_ascii_hexdigit, to_ascii_lowercase,
}

abbrev message : List ℕ
message = 1 ∷ 2 ∷ 3 ∷ []

abbrev key : List ℕ
key = replicate 32 5

abbrev signature : List ℕ
signature = mock_tag ++ (to_be_bytes 8 3 ++ message)

message_signed : mock_sign key message ≡ ok signature
unfolding mock_sign
message_signed = refl

abbrev approval : List ℕ
approval = composite recovery_approval message

approval_signed :
    mock_sign_message key recovery_approval message
    ≡ ok (mock_tag ++ (to_be_bytes 8 (length approval) ++ approval))
unfolding mock_sign_message mock_sign mock_crypto_provider
approval_signed = refl

-- Forty hexadecimal digits, the first of them upper case.
abbrev fingerprint : Str
fingerprint = b'0' ∷ b'x' ∷ b'A' ∷ replicate 39 b'1'

abbrev lowered : Str
lowered = b'0' ∷ b'x' ∷ b'a' ∷ replicate 39 b'1'

fingerprint_admitted : new_participant_id fingerprint ≡ ok lowered
unfolding new_participant_id is_valid_participant_id to_ascii_lowercase is_ascii_hexdigit
    starts_with
fingerprint_admitted = refl

abbrev session : SigningSession
session = record {
  session_id = [];
  wallet = [];
  digest = [];
  nonce = 3;
  policy_version = 1;
  protocol_version = [];
  participants = [];
  threshold = 2;
  status = started;
}

abbrev done : SigningSession
done = record session { status = completed }
