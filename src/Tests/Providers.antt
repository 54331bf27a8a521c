-- ===== src/Tests/Providers.antt =====
-- crates/keymesh-tss/src/signing.rs and provider.rs with simulated protocols.
use key_mesh.Prelude.{
  ℕ, ◌≤◌, ◌<◌, ◌≡◌, ◌≢◌, ◌⊎◌, refl, true, List, [], ◌∷◌, none, some, replicate, All,
}
use key_mesh.Prelude.Bytes.{bytes_eq}
use key_mesh.Prelude.Outcome.{ok}
use key_mesh.Tss.Session.{SessionBinding, derive_session_id}
use key_mesh.Prelude.Panics.{◌>>=◌, unwrap, map_err, ok_or, assert}
use key_mesh.Tss.Interactive.{
  interactive_signing, selected_verifiers, selected_shares, selected_aux, entry_points, all_same,
}
use key_mesh.Tss.Signing.{
  ThresholdSignature, bytes_gt, half_order, s_is_low, check_subset, index_seen, signing_checks,
  threshold_sign, verify_signature, normalize,
}
use key_mesh.Tss.Signing.Guards.{Distinct, threshold_sign-ok, high_s_panics}
use key_mesh.Tss.Provider.{
  ThresholdEcdsaProvider, new_provider, from_material, provider_sign, provider_verify,
  mainnet_enabled, Environment,
}
use key_mesh.Tss.Provider.Guarantees.{provider_sign-ok}
use key_mesh.Tests.Parameters.{constant_hash, material_of, signing_with}

abbrev binding : SessionBinding
binding = record {
  wallet = replicate 20 1;
  chain_id = 31_337;
  nonce = 4;
  digest = replicate 32 2;
  policy_version = 1;
  signing_protocol_version = b'v' ∷ [];
  random = replicate 32 3;
}

abbrev low_bytes : List ℕ
low_bytes = replicate 32 0x11

abbrev high_s : List ℕ
high_s = replicate 32 0xf0

abbrev signature : ThresholdSignature
signature = record {
  r = replicate 32 1;
  s = low_bytes;
  v = 27;
  digest = replicate 32 2;
  session_id = replicate 32 0;
}

signed :
    threshold_sign constant_hash
      (signing_with low_bytes)
      0
      (material_of 4 2)
      (0 ∷ 2 ∷ [])
      binding
      (replicate 32 0)
    ≡ some (ok signature)
unfolding threshold_sign signing_checks check_subset index_seen derive_session_id bytes_eq normalize
    bytes_gt verify_signature interactive_signing selected_verifiers selected_shares selected_aux
    entry_points all_same ◌>>=◌ unwrap map_err ok_or assert
signed = refl

threshold_sign-ok_example :
    (2 ≤ 2)
    × All (λ j. j < 3) (0 ∷ 2 ∷ [])
    × Distinct (0 ∷ 2 ∷ [])
    × (derive_session_id constant_hash binding ≡ replicate 32 0)
    × (signature.session_id ≡ replicate 32 0)
    × (signature.digest ≡ binding.digest)
    × (s_is_low signature ≡ true)
    × (verify_signature constant_hash (signing_with low_bytes) binding.digest signature 5 ≡ true)
threshold_sign-ok_example =
    threshold_sign-ok constant_hash (signing_with low_bytes) 0 (material_of 4 2) (0 ∷ 2 ∷ [])
      binding (replicate 32 0) signature signed

checks_pass :
    signing_checks constant_hash
      (signing_with high_s)
      (material_of 4 2)
      (0 ∷ 2 ∷ [])
      binding
      (replicate 32 0)
    ≡ ok tt
unfolding signing_checks check_subset index_seen derive_session_id bytes_eq
checks_pass = refl

high : bytes_gt high_s half_order ≡ true
unfolding bytes_gt
high = refl

-- The run itself returns.
high_s_run :
    interactive_signing
      (signing_with high_s)
      0
      (material_of 4 2).participants
      (0 ∷ 2 ∷ [])
      binding.digest
    ≡ some (ok (replicate 32 1, high_s, 0))
unfolding interactive_signing selected_verifiers selected_shares selected_aux entry_points all_same
    bytes_eq ◌>>=◌ unwrap map_err ok_or assert
high_s_run = refl

high_s_panics_example :
    threshold_sign constant_hash
      (signing_with high_s)
      0
      (material_of 4 2)
      (0 ∷ 2 ∷ [])
      binding
      (replicate 32 0)
    ≡ none
high_s_panics_example =
    high_s_panics constant_hash (signing_with high_s) 0 (material_of 4 2) (0 ∷ 2 ∷ []) binding
      (replicate 32 0) (replicate 32 1) high_s 0 checks_pass high_s_run high

abbrev empty_environment : Environment
empty_environment = λ name. none

abbrev provider : ThresholdEcdsaProvider ℕ ℕ
provider = record {
  material = material_of 4 2;
  participant_set = from_material (material_of 4 2);
  chain_id = 31_337;
}

built : new_provider empty_environment (material_of 4 2) 31_337 ≡ ok provider
unfolding new_provider
built = refl

provider_signed :
    provider_sign constant_hash
      (signing_with low_bytes)
      0
      provider
      binding
      (0 ∷ 2 ∷ [])
      (replicate 32 0)
    ≡ some (ok signature)
unfolding provider_sign from_material
provider_signed = signed

provider_sign-ok_example :
    (binding.chain_id ≡ provider.chain_id)
    × ((provider.chain_id ≢ 1) ⊎ (mainnet_enabled empty_environment ≡ true))
    × (2 ≤ 2)
    × (s_is_low signature ≡ true)
    × (provider_verify constant_hash (signing_with low_bytes) provider binding.digest signature
        ≡ true)
provider_sign-ok_example =
    provider_sign-ok constant_hash (signing_with low_bytes) empty_environment (material_of 4 2)
      31_337 0 provider binding (0 ∷ 2 ∷ []) (replicate 32 0) signature built provider_signed
