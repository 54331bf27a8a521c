-- ===== src/Tss/Governance/Canonical.antt =====
-- What the canonical bytes of crates/keymesh-tss/src/governance.rs bind.
use key_mesh.Prelude.{
  ℕ, ◌^◌, ◌<◌, ◌≡◌, refl, sym, ◌∙◌, List, [], ◌∷◌, ◌++◌, length, arith, append_assoc, append_inj,
  All,
}
use key_mesh.Prelude.Bytes.{to_be_bytes, u64_inj}
use key_mesh.Prelude.Text.{Str, text}
use key_mesh.Tss.Governance.{TssRotationRequest}

participants_bytes : List Str → List ℕ
participants_bytes [] = []
participants_bytes (p ∷ ps) = to_be_bytes 8 (length p) ++ (p ++ participants_bytes ps)

unfoldable pub canonical_bytes : TssRotationRequest → List ℕ
unfolding participants_bytes
canonical_bytes r =
    text "KEYMESH_TSS_ROTATION_V1"
    ++ (to_be_bytes 8 r.id
        ++ (r.wallet
            ++ (to_be_bytes 8 r.old_participant_set_version
                ++ (to_be_bytes 8 (length r.new_participant_set)
                    ++ (participants_bytes r.new_participant_set
                        ++ (to_be_bytes 8 r.threshold
                            ++ (to_be_bytes 8 r.quorum_required
                                ++ (to_be_bytes 8 r.timelock_seconds
                                    ++ (to_be_bytes 8 r.created_at ++ r.group_public_key)))))))))

-- The ranges of the Rust types.
pub record IsTyped (r : TssRotationRequest) : Type 0 where
  pub id_u64 : r.id < 2 ^ 64
  pub wallet_20 : length r.wallet ≡ 20
  pub version_u64 : r.old_participant_set_version < 2 ^ 64
  pub members_u64 : length r.new_participant_set < 2 ^ 64
  pub member_lengths : All (λ p. length p < 2 ^ 64) r.new_participant_set
  pub threshold_u64 : r.threshold < 2 ^ 64
  pub quorum_u64 : r.quorum_required < 2 ^ 64
  pub timelock_u64 : r.timelock_seconds < 2 ^ 64
  pub created_u64 : r.created_at < 2 ^ 64

participants_inj :
    (ps qs : List Str) (us vs : List ℕ)
    → length ps ≡ length qs
    → All (λ p. length p < 2 ^ 64) ps
    → All (λ p. length p < 2 ^ 64) qs
    → participants_bytes ps ++ us ≡ participants_bytes qs ++ vs
    → (ps ≡ qs) × (us ≡ vs)
unfolding participants_bytes
participants_inj [] [] us vs n t u e = (refl, e)
participants_inj [] (q ∷ qs) us vs n t u e = absurd (omega (arith, n))
participants_inj (p ∷ ps) [] us vs n t u e = absurd (omega (arith, n))
participants_inj (p ∷ ps) (q ∷ qs) us vs n t u e =
    let flat : to_be_bytes 8 (length p) ++ (p ++ (participants_bytes ps ++ us))
        ≡ to_be_bytes 8 (length q) ++ (q ++ (participants_bytes qs ++ vs)) =
      simp append_assoc at e in
    let (len, e1) = u64_inj t.0 u.0 flat in
    let (first, e2) = append_inj p q len e1 in
    let (others, more) = participants_inj ps qs us vs (omega (arith, n)) t.1 u.1 e2 in
    (cc (first, others), more)

-- Two requests in the ranges of the Rust types with the same canonical bytes agree on the id, the wallet, the version, the participants in
-- their order, the threshold, the quorum, the timelock, the time of creation and the group key.
pub rotation_bytes_inj :
    (r q : TssRotationRequest)
    → IsTyped r
    → IsTyped q
    → canonical_bytes r ≡ canonical_bytes q
    → (r.id ≡ q.id)
      × (r.wallet ≡ q.wallet)
      × (r.old_participant_set_version ≡ q.old_participant_set_version)
      × (r.new_participant_set ≡ q.new_participant_set)
      × (r.threshold ≡ q.threshold)
      × (r.quorum_required ≡ q.quorum_required)
      × (r.timelock_seconds ≡ q.timelock_seconds)
      × (r.created_at ≡ q.created_at)
      × (r.group_public_key ≡ q.group_public_key)
unfolding canonical_bytes
rotation_bytes_inj r q t u e =
    let tag = text "KEYMESH_TSS_ROTATION_V1" in
    let (id, e1) = u64_inj t.id_u64 u.id_u64 (append_inj tag tag refl e).1 in
    let (wallet, e2) = append_inj r.wallet q.wallet (t.wallet_20 ∙ sym u.wallet_20) e1 in
    let (version, e3) = u64_inj t.version_u64 u.version_u64 e2 in
    let (count, e4) = u64_inj t.members_u64 u.members_u64 e3 in
    let (members, e5) =
      participants_inj r.new_participant_set q.new_participant_set _ _ count t.member_lengths
        u.member_lengths e4 in
    let (threshold, e6) = u64_inj t.threshold_u64 u.threshold_u64 e5 in
    let (quorum, e7) = u64_inj t.quorum_u64 u.quorum_u64 e6 in
    let (timelock, e8) = u64_inj t.timelock_u64 u.timelock_u64 e7 in
    let (time, key) = u64_inj t.created_u64 u.created_u64 e8 in
    (id, wallet, version, members, threshold, quorum, timelock, time, key)
