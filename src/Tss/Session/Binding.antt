-- ===== src/Tss/Session/Binding.antt =====
-- What a session id of crates/keymesh-tss/src/session.rs binds.
use key_mesh.Prelude.{
  ℕ, ◌^◌, ◌<◌, ◌≡◌, ◌≢◌, refl, sym, ap, ◌∙◌, List, ◌++◌, length, length-append, arith, append_inj,
  replicate,
}
use key_mesh.Prelude.Bytes.{u64_inj}
use key_mesh.Prelude.Keccak.{Keccak}
use key_mesh.Tss.Session.{SessionBinding, preimage, derive_session_id, u256_be}

-- The ranges of the Rust types.
pub record IsTyped (b : SessionBinding) : Type 0 where
  pub wallet_20 : length b.wallet ≡ 20
  pub chain_id_u64 : b.chain_id < 2 ^ 64
  pub nonce_u64 : b.nonce < 2 ^ 64
  pub digest_32 : length b.digest ≡ 32
  pub policy_version_u64 : b.policy_version < 2 ^ 64
  pub random_32 : length b.random ≡ 32

u256_be_inj :
    {v w : ℕ} {us vs : List ℕ}
    → v < 2 ^ 64
    → w < 2 ^ 64
    → u256_be v ++ us ≡ u256_be w ++ vs
    → (v ≡ w) × (us ≡ vs)
unfolding u256_be
u256_be_inj hv hw e = u64_inj hv hw (append_inj (replicate 24 0) (replicate 24 0) refl e).1

-- The protocol version is written without its length, but everything behind it has a fixed length.
last_inj :
    (xs ys us vs : List ℕ) → length us ≡ length vs → xs ++ us ≡ ys ++ vs → (xs ≡ ys) × (us ≡ vs)
last_inj xs ys us vs n e =
    let total = length-append xs us in
    let total' = length-append ys vs in
    let same = ap (λ (zs : List ℕ). length zs) e in
    append_inj xs ys (omega (arith, total, total', same, n)) e

preimage_inj : (b c : SessionBinding) → IsTyped b → IsTyped c → preimage b ≡ preimage c → b ≡ c
unfolding preimage
preimage_inj b c t u e =
    let (wallet, e1) = append_inj b.wallet c.wallet (t.wallet_20 ∙ sym u.wallet_20) e in
    let (chain, e2) = u256_be_inj t.chain_id_u64 u.chain_id_u64 e1 in
    let (nonce, e3) = u256_be_inj t.nonce_u64 u.nonce_u64 e2 in
    let (digest, e4) = append_inj b.digest c.digest (t.digest_32 ∙ sym u.digest_32) e3 in
    let (policy, e5) = u256_be_inj t.policy_version_u64 u.policy_version_u64 e4 in
    let (version, random) =
      last_inj b.signing_protocol_version c.signing_protocol_version b.random c.random
        (t.random_32 ∙ sym u.random_32) e5 in
    λ i. record {
      wallet = wallet i;
      chain_id = chain i;
      nonce = nonce i;
      digest = digest i;
      policy_version = policy i;
      signing_protocol_version = version i;
      random = random i;
    }

-- Two different bindings in the ranges of the Rust types with one session id show a collision of Keccak-256.
pub session_id_collision :
    (keccak : Keccak) (b c : SessionBinding)
    → IsTyped b
    → IsTyped c
    → derive_session_id keccak b ≡ derive_session_id keccak c
    → b ≢ c
    → (preimage b ≢ preimage c) × (keccak.hash (preimage b) ≡ keccak.hash (preimage c))
unfolding derive_session_id
session_id_collision keccak b c t u e ne = ((λ same. ne (preimage_inj b c t u same)), e)
