-- ===== src/Tss/Envelope/Verification.antt =====
-- Signing an envelope and verifying it, crates/keymesh-tss/src/envelope.rs.
use key_mesh.Prelude.{◌≡◌, ◌↔◌, true, some, Option-cases, inl, inr, arith}
use key_mesh.Prelude.Bytes.{bytes_eq_iff}
use key_mesh.Tss.Envelope.{
  Ecdsa, NetworkKeypair, ParticipantIdentity, TssEnvelope, to_sign_bytes, check_wallet,
  keypair_sign, sign_envelope, verify_envelope, read_signature, identity_verify,
}

module _ {K X S : Type 0} (ecdsa : Ecdsa K X S) where
  -- An envelope verifies under an identity exactly when it is from that participant, for its wallet and
  -- chain, and its signature can be read and is accepted for its bytes under the identity's key.
  pub verify_envelope_iff :
      (identity : ParticipantIdentity K) (e : TssEnvelope)
      → (verify_envelope ecdsa identity e ≡ true) ↔ (
          (e.participant_id ≡ identity.id)
          × (identity.wallet ≡ e.wallet)
          × (identity.chain_id ≡ e.chain_id)
          × ((sig : S) × (read_signature ecdsa e.signature ≡ some sig)
              × (ecdsa.accepts identity.network_verifying_key (to_sign_bytes e) sig ≡ true)))
  unfolding verify_envelope check_wallet identity_verify
  verify_envelope_iff identity e =
      let wallets = bytes_eq_iff identity.wallet e.wallet in
      (
        λ h. (
          ground arith,
          wallets.0 (ground arith),
          ground arith,
          elim (Option-cases (read_signature ecdsa e.signature)) [
            | inl absent ↦ absurd (ground arith)
            | inr (sig, present) ↦ (sig, present, ground arith)
          ],
        ),
        λ h.
            let (id, wallet, chain, signed) = h in
            let (sig, present, accepted) = signed in ground (arith, wallets),
      )

  -- What a participant signs verifies under the identity with its id, wallet and chain and the key of
  -- its key pair.
  pub verify_envelope-sign_envelope :
      (keypair : NetworkKeypair K X) (identity : ParticipantIdentity K) (e : TssEnvelope)
      → identity.network_verifying_key ≡ ecdsa.verifying_key keypair.signing_key
      → e.participant_id ≡ identity.id
      → identity.wallet ≡ e.wallet
      → identity.chain_id ≡ e.chain_id
      → verify_envelope ecdsa identity (sign_envelope ecdsa keypair e) ≡ true
  unfolding sign_envelope keypair_sign read_signature to_sign_bytes
  verify_envelope-sign_envelope keypair identity e key id wallet chain =
      (verify_envelope_iff identity (sign_envelope ecdsa keypair e)).1 (
        id,
        wallet,
        chain,
        (
          ecdsa.sign keypair.signing_key (to_sign_bytes e),
          ecdsa.from_slice-to_vec _,
          rw key (ecdsa.accepts-sign keypair.signing_key (to_sign_bytes e)),
        ),
      )
