-- ===== src/Tss/Provider.antt =====
-- crates/keymesh-tss/src/provider.rs: the signing providers in front of the threshold signature.
--
-- The environment is a function from a variable's name to its value.
pub mod Guarantees
use key_mesh.Prelude.{
  ℕ, ◌≡◌, Bool, true, false, not, ◌&&◌, List, [], ◌∷◌, ◌++◌, map, Option, none, some, ltb, ◌==◌,
  if◌then◌else◌, length,
}
use key_mesh.Prelude.Bytes.{bytes_eq}
use key_mesh.Prelude.Keccak.{Keccak}
use key_mesh.Prelude.Text.{Str, text, decimal, hex_encode}
use key_mesh.Prelude.Outcome.{Result, ok, err, ◌>>=◌, ◌>>◌, fail_if}
use key_mesh.Tss.Errors.{TssError, session_mismatch, insufficient_shares}
use key_mesh.Tss.Key.{ThresholdKeyMaterial, GroupPublicKey, Participant}
use key_mesh.Tss.Session.{SessionBinding, SessionId}
use key_mesh.Tss.Interactive.{SigningProtocols}
use key_mesh.Tss.Signing.{ThresholdSignature, threshold_sign, verify_signature}

abbrev pub Environment : Type 0
Environment = Str → Option Str

-- `var(name).as_deref() == Ok(value)`.
abbrev pub is_set_to : Option Str → Str → Bool
is_set_to none value = false
is_set_to (some v) value = bytes_eq v value

pub data SigningMode : Type 0 where
  single threshold_mode : SigningMode

unfoldable pub mode_from_env : Environment → SigningMode
mode_from_env env =
    if is_set_to (env (text "KEYMESH_SIGNING_MODE")) (text "threshold")
    then threshold_mode
    else single

unfoldable pub is_threshold : SigningMode → Bool
is_threshold single = false
is_threshold threshold_mode = true

pub record ThresholdParticipantSet (K : Type 0) : Type 0 where
  pub protocol_version : Str
  pub threshold : ℕ
  pub total : ℕ
  pub participant_ids : List ℕ
  pub group_public_key : GroupPublicKey K

unfoldable pub from_material : {K H : Type 0} → ThresholdKeyMaterial K H → ThresholdParticipantSet K
from_material mat = record {
  protocol_version = text "synedrion/0.3-cggmp24";
  threshold = mat.threshold;
  total = mat.total;
  participant_ids = map (λ p. p.index) mat.participants;
  group_public_key = mat.group_public_key;
}

unfoldable pub verify_wallet_identity :
    {K : Type 0} → ThresholdParticipantSet K → List ℕ → Result (Unit {0}) TssError
verify_wallet_identity set expected_wallet = do
  fail_if (not (bytes_eq set.group_public_key.ethereum_address expected_wallet)) (
      session_mismatch (
        text "group address 0x"
        ++ (hex_encode set.group_public_key.ethereum_address
            ++ (text " != wallet 0x" ++ hex_encode expected_wallet))))
  ok tt

pub record ThresholdEcdsaProvider (K H : Type 0) : Type 0 where
  pub material : ThresholdKeyMaterial K H
  pub participant_set : ThresholdParticipantSet K
  pub chain_id : ℕ

-- The main network, chain 1, has to be switched on.
unfoldable pub mainnet_enabled : Environment → Bool
mainnet_enabled env = is_set_to (env (text "KEYMESH_ENABLE_MAINNET_TSS")) (text "true")

unfoldable pub new_provider :
    {K H : Type 0}
    → Environment
    → ThresholdKeyMaterial K H
    → ℕ
    → Result (ThresholdEcdsaProvider K H) TssError
unfolding from_material
new_provider env mat chain = do
  fail_if (chain == 1 && not (mainnet_enabled env))
      (session_mismatch (text "mainnet not allowed for threshold provider (testnet only)"))
  ok (record { material = mat; participant_set = from_material mat; chain_id = chain })

module _ {K H Seed Scalar : Type 0} (keccak : Keccak)
    (protocols : SigningProtocols K H Seed Scalar) where
  unfoldable pub provider_sign :
      Seed
      → ThresholdEcdsaProvider K H
      → SessionBinding
      → List ℕ
      → SessionId
      → Option (Result ThresholdSignature TssError)
  provider_sign seed provider binding subset session_id =
      if not (binding.chain_id == provider.chain_id)
      then some (
          err (
            session_mismatch (
              text "chain mismatch: binding "
              ++ (decimal binding.chain_id
                  ++ (text " != provider " ++ decimal provider.chain_id)))))
      else if ltb (length subset) provider.participant_set.threshold
      then some (err (insufficient_shares (length subset) provider.participant_set.threshold))
      else threshold_sign keccak protocols seed provider.material subset binding session_id

  unfoldable pub provider_verify : ThresholdEcdsaProvider K H → List ℕ → ThresholdSignature → Bool
  provider_verify provider digest sig =
      verify_signature keccak protocols digest sig provider.material.group_public_key.verifying_key

pub data ProviderError : Type 0 where
  threshold_not_satisfied invalid_participant session_differs digest_differs : ProviderError
  wrong_chain mainnet_not_allowed : ProviderError
  failed : Str → ProviderError

-- The trait: what each provider says of itself.
pub record SigningProvider : Type 0 where
  pub kind : Str
  pub version : Str
  pub capabilities : List Str

pub record SingleEcdsaProvider : Type 0 where
  pub protocol_version : Str

unfoldable pub new_single : SingleEcdsaProvider
new_single = record { protocol_version = text "ecdsa/single-v1" }

unfoldable pub single_provider : SingleEcdsaProvider → SigningProvider
single_provider provider = record {
  kind = text "single";
  version = provider.protocol_version;
  capabilities = text "sign" ∷ text "verify" ∷ [];
}

unfoldable pub threshold_provider : {K H : Type 0} → ThresholdEcdsaProvider K H → SigningProvider
threshold_provider provider = record {
  kind = text "threshold";
  version = text "synedrion/0.3-cggmp24";
  capabilities = text "dkg" ∷ text "sign" ∷ text "verify" ∷ text "session" ∷ [];
}

unfoldable pub group_address : {K H : Type 0} → ThresholdEcdsaProvider K H → List ℕ
group_address provider = provider.material.group_public_key.ethereum_address
