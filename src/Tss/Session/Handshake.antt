-- ===== src/Tss/Session/Handshake.antt =====
-- What the handshake of crates/keymesh-tss/src/handshake.rs makes sure of.
use key_mesh.Prelude.{ℕ, ◌≡◌, ◌↔◌, sym, ◌∙◌, List, arith}
use key_mesh.Prelude.Bytes.{bytes_eq_iff}
use key_mesh.Prelude.Keccak.{Keccak}
use key_mesh.Prelude.Outcome.{ok}
use key_mesh.Tss.Session.{SessionBinding, SessionId, derive_session_id, handshake_validate}

-- The handshake returns an id exactly when the two bindings agree on the wallet, the chain, the digest,
-- the nonce, the policy version and the protocol version and have one session id, which it returns.
pub handshake_iff :
    (keccak : Keccak) (b c : SessionBinding) (participants : List ℕ) (threshold : ℕ)
    (id : SessionId)
    → (handshake_validate keccak b c participants threshold ≡ ok id) ↔ (
        (b.wallet ≡ c.wallet)
        × (b.chain_id ≡ c.chain_id)
        × (b.digest ≡ c.digest)
        × (b.nonce ≡ c.nonce)
        × (b.policy_version ≡ c.policy_version)
        × (b.signing_protocol_version ≡ c.signing_protocol_version)
        × (derive_session_id keccak b ≡ id)
        × (derive_session_id keccak c ≡ id))
unfolding handshake_validate
handshake_iff keccak b c participants threshold id =
    let wallets = bytes_eq_iff b.wallet c.wallet in
    let digests = bytes_eq_iff b.digest c.digest in
    let versions = bytes_eq_iff b.signing_protocol_version c.signing_protocol_version in
    let ids = bytes_eq_iff (derive_session_id keccak b) (derive_session_id keccak c) in
    (
      λ h. (
        wallets.0 (ground arith),
        ground arith,
        digests.0 (ground arith),
        ground arith,
        ground arith,
        versions.0 (ground arith),
        ground arith,
        sym (ids.0 (ground arith)) ∙ ground arith,
      ),
      λ h. ground (arith, wallets, digests, versions, ids),
    )
