-- ===== src/Tss/Envelope/Binding.antt =====
-- What the signed bytes of an envelope in crates/keymesh-tss/src/envelope.rs bind.
use key_mesh.Prelude.{
  ℕ, ◌^◌, ◌<◌, ◌≡◌, ◌≢◌, ◌↔◌, refl, sym, ◌∙◌, List, [], ◌∷◌, ◌++◌, none, length, arith, append_inj,
  All,
}
use key_mesh.Prelude.Bytes.{u64_inj, bytes_eq_iff}
use key_mesh.Prelude.Text.{Str}
use key_mesh.Prelude.Outcome.{ok}
use key_mesh.Tss.Envelope.{TssEnvelope, to_sign_bytes, validate_against}

-- No byte is 0.
abbrev pub ZeroFree : Str → Type 0
ZeroFree = All (λ c. c ≢ 0)

-- The lengths of the arrays, the range of the chain id, and texts without a zero byte.
pub record IsTyped (e : TssEnvelope) : Type 0 where
  pub version_text : ZeroFree e.protocol_version
  pub session_32 : length e.session_id ≡ 32
  pub wallet_20 : length e.wallet ≡ 20
  pub chain_id_u64 : e.chain_id < 2 ^ 64
  pub type_text : ZeroFree e.message_type
  pub digest_32 : length e.digest ≡ 32

-- A text without a zero byte ends where the first zero byte stands.
terminated_inj :
    (xs ys us vs : List ℕ)
    → ZeroFree xs
    → ZeroFree ys
    → xs ++ (0 ∷ us) ≡ ys ++ (0 ∷ vs)
    → (xs ≡ ys) × (us ≡ vs)
terminated_inj [] [] us vs t u e = (refl, ground (arith, e))
terminated_inj [] (y ∷ ys) us vs t u e = absurd (ground (arith, e))
terminated_inj (x ∷ xs) [] us vs t u e = absurd (ground (arith, e))
terminated_inj (x ∷ xs) (y ∷ ys) us vs t u e = ground (arith, terminated_inj xs ys us vs t.1 u.1)

-- Two envelopes in the ranges of the Rust types with the same signed bytes, whose texts hold no zero byte, agree on every field but the
-- signature.
pub to_sign_bytes_inj :
    (e f : TssEnvelope)
    → IsTyped e
    → IsTyped f
    → to_sign_bytes e ≡ to_sign_bytes f
    → record e { signature = none } ≡ record f { signature = none }
unfolding to_sign_bytes
to_sign_bytes_inj e f t u h =
    let (version, e1) =
      terminated_inj e.protocol_version f.protocol_version _ _ t.version_text u.version_text h in
    let (session, e2) = append_inj e.session_id f.session_id (t.session_32 ∙ sym u.session_32) e1 in
    let (wallet, e3) = append_inj e.wallet f.wallet (t.wallet_20 ∙ sym u.wallet_20) e2 in
    let (chain, e4) = u64_inj t.chain_id_u64 u.chain_id_u64 e3 in
    let (participant, e5) = append_inj (e.participant_id ∷ []) (f.participant_id ∷ []) refl e4 in
    let (round, e6) = append_inj (e.round ∷ []) (f.round ∷ []) refl e5 in
    let (type, e7) = terminated_inj e.message_type f.message_type _ _ t.type_text u.type_text e6 in
    let (digest, payload) = append_inj e.digest f.digest (t.digest_32 ∙ sym u.digest_32) e7 in
    let participant' : e.participant_id ≡ f.participant_id = ground (arith, participant) in
    let round' : e.round ≡ f.round = ground (arith, round) in
    λ i. record {
      protocol_version = version i;
      session_id = session i;
      wallet = wallet i;
      chain_id = chain i;
      participant_id = participant' i;
      round = round' i;
      message_type = type i;
      digest = digest i;
      payload = payload i;
      signature = none;
    }

-- `validate_against` succeeds exactly on the expected session, wallet, chain, digest and version and a
-- round from 1 to 10.
pub validate_against_iff :
    (e : TssEnvelope) (session wallet : List ℕ) (chain : ℕ) (digest : List ℕ) (version : Str)
    → (validate_against e session wallet chain digest version ≡ ok tt) ↔ (
        (e.session_id ≡ session)
        × (e.wallet ≡ wallet)
        × (e.chain_id ≡ chain)
        × (e.digest ≡ digest)
        × (e.protocol_version ≡ version)
        × (0 < e.round)
        × (e.round < 11))
unfolding validate_against
validate_against_iff e session wallet chain digest version =
    let sessions = bytes_eq_iff e.session_id session in
    let wallets = bytes_eq_iff e.wallet wallet in
    let digests = bytes_eq_iff e.digest digest in
    let versions = bytes_eq_iff e.protocol_version version in
    (
      λ h. (
        sessions.0 (ground arith),
        wallets.0 (ground arith),
        ground arith,
        digests.0 (ground arith),
        versions.0 (ground arith),
        ground arith,
        ground arith,
      ),
      λ h. ground (arith, sessions, wallets, digests, versions),
    )
