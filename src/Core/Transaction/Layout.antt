-- ===== src/Core/Transaction/Layout.antt =====
-- The canonical encoding of crates/keymesh-core/src/transaction/mod.rs, part by part.
use key_mesh.Prelude.{
  ℕ, ◌+◌, ◌%◌, ◌^◌, ◌≤◌, ◌<◌, ◌≡◌, ◌↔◌, refl, sym, ap, ◌∙◌, List, ◌++◌, length, length-append,
  arith, append_assoc, append_inj, replicate,
}
use key_mesh.Prelude.Bytes.{to_be_bytes, length-to_be_bytes, to_be_bytes_inj}
use key_mesh.Prelude.Keccak.{Keccak}
use key_mesh.Prelude.Outcome.{Result, ok, err}
use key_mesh.Core.Errors.{KeymeshError}
use key_mesh.Core.Serialization.{new_encoder, into_bytes, write_raw, write_bytes}
use key_mesh.Core.Transaction.{
  KeymeshTransaction, IsTyped, max_data_bytes, validate, be256_u64, be256_u128, domain_tag,
  encode_canonical,
}

length-be256_u64 : (v : ℕ) → length (be256_u64 v) ≡ 32
unfolding be256_u64
length-be256_u64 v =
    omega (arith, length-append (replicate 24 0) (to_be_bytes 8 v), length-to_be_bytes 8 v)

length-be256_u128 : (v : ℕ) → length (be256_u128 v) ≡ 32
unfolding be256_u128
length-be256_u128 v =
    omega (arith, length-append (replicate 16 0) (to_be_bytes 16 v), length-to_be_bytes 16 v)

be256_u64_inj : {v w : ℕ} → v < 2 ^ 64 → w < 2 ^ 64 → be256_u64 v ≡ be256_u64 w → v ≡ w
unfolding be256_u64
be256_u64_inj hv hw e =
    to_be_bytes_inj 8 hv hw (append_inj (replicate 24 0) (replicate 24 0) refl e).1

be256_u128_inj : {v w : ℕ} → v < 2 ^ 128 → w < 2 ^ 128 → be256_u128 v ≡ be256_u128 w → v ≡ w
unfolding be256_u128
be256_u128_inj hv hw e =
    to_be_bytes_inj 16 hv hw (append_inj (replicate 16 0) (replicate 16 0) refl e).1

-- The parts behind the domain tag, in the order of the format.
abbrev pub layout : KeymeshTransaction → List ℕ
layout tx =
    tx.wallet
    ++ (be256_u64 tx.chain_id
        ++ (be256_u64 tx.nonce
            ++ (tx.to
                ++ (be256_u128 tx.value
                    ++ (to_be_bytes 4 (length tx.calldata % 2 ^ 32)
                        ++ (tx.calldata ++ be256_u64 tx.expiry))))))

pub layout_inj :
    (tx ty : KeymeshTransaction)
    → IsTyped tx
    → IsTyped ty
    → length tx.calldata < 2 ^ 32
    → length ty.calldata < 2 ^ 32
    → layout tx ≡ layout ty
    → tx ≡ ty
layout_inj tx ty t u hx hy e =
    let (wallet, e1) = append_inj tx.wallet ty.wallet (t.wallet_20 ∙ sym u.wallet_20) e in
    let (chain, e2) = append_inj (be256_u64 tx.chain_id) (be256_u64 ty.chain_id) (same64 _ _) e1 in
    let (nonce, e3) = append_inj (be256_u64 tx.nonce) (be256_u64 ty.nonce) (same64 _ _) e2 in
    let (to, e4) = append_inj tx.to ty.to (t.to_20 ∙ sym u.to_20) e3 in
    let (value, e5) = append_inj (be256_u128 tx.value) (be256_u128 ty.value) same128 e4 in
    let (len, e6) =
      append_inj (to_be_bytes 4 (length tx.calldata % 2 ^ 32))
        (to_be_bytes 4 (length ty.calldata % 2 ^ 32)) same4 e5 in
    let lengths =
      to_be_bytes_inj 4 {v = length tx.calldata % 2 ^ 32} {w = length ty.calldata % 2 ^ 32}
        (omega arith) (omega arith) len in
    let (calldata, expiry) = append_inj tx.calldata ty.calldata (omega arith) e6 in
    let chain' = be256_u64_inj t.chain_id_u64 u.chain_id_u64 chain in
    let nonce' = be256_u64_inj t.nonce_u64 u.nonce_u64 nonce in
    let value' = be256_u128_inj t.value_u128 u.value_u128 value in
    let expiry' = be256_u64_inj t.expiry_u64 u.expiry_u64 expiry in
    λ i. record {
      wallet = wallet i;
      chain_id = chain' i;
      nonce = nonce' i;
      to = to i;
      value = value' i;
      calldata = calldata i;
      expiry = expiry' i;
    }
  where
    same64 : (v w : ℕ) → length (be256_u64 v) ≡ length (be256_u64 w)
    same64 v w = length-be256_u64 v ∙ sym (length-be256_u64 w)

    same128 : length (be256_u128 tx.value) ≡ length (be256_u128 ty.value)
    same128 = length-be256_u128 tx.value ∙ sym (length-be256_u128 ty.value)

    same4 :
        length (to_be_bytes 4 (length tx.calldata % 2 ^ 32))
        ≡ length (to_be_bytes 4 (length ty.calldata % 2 ^ 32))
    same4 = length-to_be_bytes 4 _ ∙ sym (length-to_be_bytes 4 _)

pub length-layout :
    (tx : KeymeshTransaction) → IsTyped tx → length (layout tx) ≡ 172 + length tx.calldata
length-layout tx t = simp length-append (
    omega (
      arith,
      t,
      length-be256_u64 tx.chain_id,
      length-be256_u64 tx.nonce,
      length-be256_u64 tx.expiry,
      length-be256_u128 tx.value,
      length-to_be_bytes 4 (length tx.calldata % 2 ^ 32),
    ))

-- A transaction validates exactly when its chain id is not 0 and its data is at most 128 KiB.
pub validate_iff :
    (tx : KeymeshTransaction)
    → (validate tx ≡ ok tt) ↔ ((0 < tx.chain_id) × (length tx.calldata ≤ max_data_bytes))
unfolding validate
validate_iff tx = ground arith

module _ (keccak : Keccak) where
  pub encode_canonical-layout :
      (tx : KeymeshTransaction)
      → validate tx ≡ ok tt
      → encode_canonical keccak tx ≡ ok (domain_tag keccak ++ layout tx)
  unfolding encode_canonical new_encoder into_bytes write_raw write_bytes
  encode_canonical-layout tx h = rw h (ap ok (simp append_assoc))

  -- Encoding succeeds exactly on what validates.
  pub encode-ok :
      (tx : KeymeshTransaction) (bytes : List ℕ)
      → encode_canonical keccak tx ≡ ok bytes
      → (validate tx ≡ ok tt) × (bytes ≡ domain_tag keccak ++ layout tx)
  encode-ok tx bytes h = go (validate tx) refl
    where
      go :
          (r : Result (Unit {0}) KeymeshError)
          → validate tx ≡ r
          → (validate tx ≡ ok tt) × (bytes ≡ domain_tag keccak ++ layout tx)
      go (ok _) p = (p, cc (encode_canonical-layout tx p))
      go (err x) p = absurd (unfold encode_canonical in cc (rw (p, encode_canonical) at h))
