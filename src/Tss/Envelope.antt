-- ===== src/Tss/Envelope.antt =====
-- crates/keymesh-tss/src/envelope.rs and identity.rs: signed messages between participants.
--
-- ECDSA over secp256k1 is the crate k256's: the record `Ecdsa` says what the code relies on. Byte arrays
-- are lists, with their lengths in `IsTyped`.
pub mod Binding
pub mod Verification
use key_mesh.Prelude.{
  ℕ, ◌^◌, ◌<◌, ◌≡◌, Bool, true, false, not, ◌&&◌, ◌||◌, List, [], ◌∷◌, ◌++◌, Option, none, some,
  ltb, ◌==◌, if◌then◌else◌, length,
}
use key_mesh.Prelude.Bytes.{to_be_bytes, bytes_eq}
use key_mesh.Prelude.Text.{Str, text, hex_encode}
use key_mesh.Prelude.Outcome.{Result, ok, err, ◌>>=◌, ◌>>◌, fail_if}

-- Keys `K`, secret keys `X` and signatures `S`: a signature is read back from its bytes, and verifies
-- under the key of the secret key that made it.
pub record Ecdsa (K X S : Type 0) : Type 0 where
  pub verifying_key : X → K
  pub sign : X → List ℕ → S
  pub to_vec : S → List ℕ
  pub from_slice : List ℕ → Option S
  pub accepts : K → List ℕ → S → Bool
  pub from_slice-to_vec : (s : S) → from_slice (to_vec s) ≡ some s
  pub accepts-sign : (x : X) (m : List ℕ) → accepts (verifying_key x) m (sign x m) ≡ true

pub record NetworkKeypair (K X : Type 0) : Type 0 where
  pub signing_key : X
  pub verifying_key : K

pub record ParticipantIdentity (K : Type 0) : Type 0 where
  pub id : ℕ
  pub network_verifying_key : K
  pub wallet : List ℕ
  pub chain_id : ℕ

unfoldable pub check_wallet : {K : Type 0} → ParticipantIdentity K → List ℕ → ℕ → Bool
check_wallet identity wallet chain_id =
    bytes_eq identity.wallet wallet && identity.chain_id == chain_id

pub record TssEnvelope : Type 0 where
  pub protocol_version : Str
  pub session_id : List ℕ
  pub wallet : List ℕ
  pub chain_id : ℕ
  pub participant_id : ℕ
  pub round : ℕ
  pub message_type : Str
  pub digest : List ℕ
  pub payload : List ℕ
  pub signature : Option (List ℕ)

unfoldable pub new_envelope :
    (protocol_version : Str) (session_id wallet : List ℕ) (chain_id participant_id round : ℕ)
    (message_type : Str) (digest payload : List ℕ)
    → TssEnvelope
new_envelope protocol_version session_id wallet chain_id participant_id round message_type digest
      payload =
    record {
      protocol_version = protocol_version;
      session_id = session_id;
      wallet = wallet;
      chain_id = chain_id;
      participant_id = participant_id;
      round = round;
      message_type = message_type;
      digest = digest;
      payload = payload;
      signature = none;
    }

-- Everything but the signature; the two texts end with a zero byte.
unfoldable pub to_sign_bytes : TssEnvelope → List ℕ
to_sign_bytes e =
    e.protocol_version
    ++ (0
        ∷ (e.session_id
            ++ (e.wallet
                ++ (to_be_bytes 8 e.chain_id
                    ++ (e.participant_id
                        ∷ (e.round ∷ (e.message_type ++ (0 ∷ (e.digest ++ e.payload)))))))))

unfoldable pub validate_against :
    TssEnvelope
    → (expected_session expected_wallet : List ℕ) → (expected_chain : ℕ)
    → (expected_digest : List ℕ) → (expected_version : Str) → Result (Unit {0}) Str
validate_against e expected_session expected_wallet expected_chain expected_digest
      expected_version =
    do
      fail_if (not (bytes_eq e.session_id expected_session)) (
          text "session_id mismatch: expected "
          ++ (hex_encode expected_session ++ (text ", got " ++ hex_encode e.session_id)))
      fail_if (not (bytes_eq e.wallet expected_wallet)) (text "wallet mismatch")
      fail_if (not (e.chain_id == expected_chain)) (text "chain_id mismatch")
      fail_if (not (bytes_eq e.digest expected_digest)) (text "digest mismatch")
      fail_if (not (bytes_eq e.protocol_version expected_version))
          (text "protocol_version mismatch")
      fail_if (e.round == 0 || ltb 10 e.round) (text "invalid round")
      ok tt

module _ {K X S : Type 0} (ecdsa : Ecdsa K X S) where
  unfoldable pub keypair_sign : NetworkKeypair K X → List ℕ → S
  keypair_sign keypair msg = ecdsa.sign keypair.signing_key msg

  unfoldable pub identity_verify : ParticipantIdentity K → List ℕ → S → Bool
  identity_verify identity msg sig = ecdsa.accepts identity.network_verifying_key msg sig

  -- `sign` of an envelope.
  unfoldable pub sign_envelope : NetworkKeypair K X → TssEnvelope → TssEnvelope
  unfolding keypair_sign
  sign_envelope keypair e = record e {
    signature = some (ecdsa.to_vec (keypair_sign keypair (to_sign_bytes e)));
  }

  -- The signature as it is read from its bytes, if there are any.
  unfoldable pub read_signature : Option (List ℕ) → Option S
  read_signature none = none
  read_signature (some sig_bytes) = ecdsa.from_slice sig_bytes

  abbrev verified_by : ParticipantIdentity K → List ℕ → Option S → Bool
  verified_by identity msg none = false
  verified_by identity msg (some sig) = identity_verify identity msg sig

  -- `verify` of an envelope.
  unfoldable pub verify_envelope : ParticipantIdentity K → TssEnvelope → Bool
  unfolding identity_verify read_signature
  verify_envelope identity e =
      if not (e.participant_id == identity.id)
      then false
      else if not (check_wallet identity e.wallet e.chain_id)
      then false
      else verified_by identity (to_sign_bytes e) (read_signature e.signature)
