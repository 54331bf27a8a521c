-- ===== src/Tss/Provider/Guarantees.antt =====
-- What a threshold provider of crates/keymesh-tss/src/provider.rs guarantees of its signatures.
use key_mesh.Prelude.{
  ℕ, ◌≤◌, ◌≡◌, ◌≢◌, ◌⊎◌, ◌∙◌, true, List, some, arith, length, Bool-cases, inl, inr,
}
use key_mesh.Prelude.Keccak.{Keccak}
use key_mesh.Prelude.Outcome.{ok}
use key_mesh.Tss.Key.{ThresholdKeyMaterial}
use key_mesh.Tss.Session.{SessionBinding, SessionId}
use key_mesh.Tss.Interactive.{SigningProtocols}
use key_mesh.Tss.Signing.{ThresholdSignature, threshold_sign, s_is_low}
use key_mesh.Tss.Signing.Guards.{threshold_sign-ok}
use key_mesh.Tss.Provider.{
  Environment, ThresholdEcdsaProvider, new_provider, provider_sign, provider_verify,
  mainnet_enabled,
}

-- A provider that was built for a chain signs for that chain alone, and for the main network only where
-- the environment enables it; its signature has a low `s` and the provider verifies it for the digest of
-- the binding.
pub provider_sign-ok :
    {K H Seed Scalar : Type 0} (keccak : Keccak) (protocols : SigningProtocols K H Seed Scalar)
    (env : Environment) (mat : ThresholdKeyMaterial K H) (chain : ℕ) (seed : Seed)
    (provider : ThresholdEcdsaProvider K H) (binding : SessionBinding) (subset : List ℕ)
    (id : SessionId) (sig : ThresholdSignature)
    → new_provider env mat chain ≡ ok provider
    → provider_sign keccak protocols seed provider binding subset id ≡ some (ok sig)
    → (binding.chain_id ≡ chain)
      × ((chain ≢ 1) ⊎ (mainnet_enabled env ≡ true))
      × (mat.threshold ≤ length subset)
      × (s_is_low sig ≡ true)
      × (provider_verify keccak protocols provider binding.digest sig ≡ true)
unfolding new_provider provider_sign provider_verify
provider_sign-ok keccak protocols env mat chain seed provider binding subset id sig built signed =
    let material : provider.material ≡ mat = ground (arith, built) in
    let same_chain : provider.chain_id ≡ chain = ground (arith, built) in
    let here : binding.chain_id ≡ provider.chain_id = ground (arith, signed) in
    let run : threshold_sign keccak protocols seed provider.material subset binding id
        ≡ some (ok sig) =
      ground (arith, signed) in
    let facts =
      threshold_sign-ok keccak protocols seed provider.material subset binding id sig run in
    (
      here ∙ same_chain,
      elim (Bool-cases (mainnet_enabled env)) [
        | inl on ↦ inr on
        | inr off ↦ inl (λ e. ground (arith, built))
      ],
      rw (← material) facts.0,
      facts.6,
      facts.7,
    )
