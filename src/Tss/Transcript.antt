-- ===== src/Tss/Transcript.antt =====
-- crates/keymesh-tss/src/transcript.rs: what a signature leaves behind, without secrets.
use key_mesh.Prelude.{ℕ, List, [], ◌∷◌, Option, some}
use key_mesh.Prelude.Text.{Str, text}
use key_mesh.Tss.Session.{SessionId}
use key_mesh.Tss.Signing.{ThresholdSignature}

pub record SigningTranscript : Type 0 where
  pub participant_indices : List ℕ
  pub protocol_version : Str
  pub session_id : SessionId
  pub digest : List ℕ
  pub chain_id : ℕ
  pub wallet : List ℕ
  pub nonce : ℕ
  pub policy_version : ℕ
  pub round_count : ℕ
  pub message_types : List Str
  pub message_ordering : List Str
  pub final_signature : Option ThresholdSignature
  pub status : Str

unfoldable pub new_success :
    List ℕ
    → SessionId
    → List ℕ
    → ℕ
    → List ℕ
    → (nonce policy_version : ℕ) → ThresholdSignature
    → SigningTranscript
new_success participants session_id digest chain_id wallet nonce policy_version sig = record {
  participant_indices = participants;
  protocol_version = text "synedrion/0.3-cggmp24";
  session_id = session_id;
  digest = digest;
  chain_id = chain_id;
  wallet = wallet;
  nonce = nonce;
  policy_version = policy_version;
  round_count = 3;
  message_types =
      text "KeyInit" ∷ text "KeyResharing" ∷ text "AuxGen" ∷ text "InteractiveSigning" ∷ [];
  message_ordering = text "broadcast" ∷ [];
  final_signature = some sig;
  status = text "Completed";
}
