-- ===== src/Core/Transaction/Binding.antt =====
-- What the canonical encoding and the digest of crates/keymesh-core/src/transaction/mod.rs bind, and
-- when a transaction is accepted.
use key_mesh.Prelude.{
  ℕ, ◌+◌, ◌≤◌, ◌<◌, ◌≡◌, ◌≢◌, ◌↔◌, refl, sym, ap, ◌∙◌, List, ◌++◌, length, length-append, arith,
  append_inj,
}
use key_mesh.Prelude.Keccak.{Keccak}
use key_mesh.Prelude.Outcome.{Result, ok, err}
use key_mesh.Core.Errors.{KeymeshError, expired}
use key_mesh.Core.Transaction.{
  KeymeshTransaction, IsTyped, max_data_bytes, validate, validate_at, domain_tag, encode_canonical,
  digest,
}
use key_mesh.Core.Transaction.Layout.{
  layout, layout_inj, length-layout, validate_iff, encode_canonical-layout, encode-ok,
}

-- `validate_at` accepts exactly a positive chain id, at most 128 KiB of data and a time up to and
-- including the expiry; when only the time is wrong, the error names the expiry and the time.
pub validate_at_iff :
    (tx : KeymeshTransaction) (now : ℕ)
    → ((validate_at tx now ≡ ok tt)
        ↔ ((0 < tx.chain_id) × (length tx.calldata ≤ max_data_bytes) × (now ≤ tx.expiry)))
      × ((validate_at tx now ≡ err (expired tx.expiry now))
          ↔ ((0 < tx.chain_id) × (length tx.calldata ≤ max_data_bytes) × (tx.expiry < now)))
unfolding validate_at validate
validate_at_iff tx now = (ground arith, ground arith)

module _ (keccak : Keccak) where
  -- Encoding succeeds exactly on a positive chain id and at most 128 KiB of data, and the result has
  -- 204 bytes more than the data.
  pub encode_canonical_iff :
      (tx : KeymeshTransaction)
      → IsTyped tx
      → ((bytes : List ℕ) × (encode_canonical keccak tx ≡ ok bytes)
          × (length bytes ≡ 204 + length tx.calldata))
        ↔ ((0 < tx.chain_id) × (length tx.calldata ≤ max_data_bytes))
  encode_canonical_iff tx t = (
    λ r. (validate_iff tx).0 (encode-ok keccak tx r.0 r.1).0,
    λ h. (
      domain_tag keccak ++ layout tx,
      encode_canonical-layout keccak tx ((validate_iff tx).1 h),
      total,
    ),
  )
    where
      total : length (domain_tag keccak ++ layout tx) ≡ 204 + length tx.calldata
      total =
          length-append (domain_tag keccak) (layout tx)
          ∙ unfold domain_tag in omega (arith, length-layout tx t, keccak.length-hash _)

  -- Two transactions in the ranges of the Rust types with the same canonical bytes are the same
  -- transaction.
  pub encode_canonical_inj :
      (tx ty : KeymeshTransaction) (bytes : List ℕ)
      → IsTyped tx
      → IsTyped ty
      → encode_canonical keccak tx ≡ ok bytes
      → encode_canonical keccak ty ≡ ok bytes
      → tx ≡ ty
  encode_canonical_inj tx ty bytes t u p q =
      let (vx, ex) = encode-ok keccak tx bytes p in
      let (vy, ey) = encode-ok keccak ty bytes q in
      let (_, small) = (validate_iff tx).0 vx in
      let (_, small') = (validate_iff ty).0 vy in
      layout_inj tx ty t u (omega arith) (omega arith)
        (append_inj (domain_tag keccak) (domain_tag keccak) refl (sym ex ∙ ey)).1

  digest-ok :
      (tx : KeymeshTransaction) (d : List ℕ)
      → digest keccak tx ≡ ok d
      → (bytes : List ℕ) × (encode_canonical keccak tx ≡ ok bytes) × (d ≡ keccak.hash bytes)
  digest-ok tx d h = go (encode_canonical keccak tx) refl
    where
      go :
          (r : Result (List ℕ) KeymeshError)
          → encode_canonical keccak tx ≡ r
          → (bytes : List ℕ) × (encode_canonical keccak tx ≡ ok bytes) × (d ≡ keccak.hash bytes)
      go (ok bytes) p = (bytes, p, unfold digest in cc (rw (p, digest) at h))
      go (err x) p = absurd (unfold digest in cc (rw (p, digest) at h))

  -- Two different transactions in the ranges of the Rust types with one digest: both have canonical bytes,
  -- these differ, and they are a collision of Keccak-256.
  pub digest_collision :
      (tx ty : KeymeshTransaction) (d : List ℕ)
      → IsTyped tx
      → IsTyped ty
      → digest keccak tx ≡ ok d
      → digest keccak ty ≡ ok d
      → tx ≢ ty
      → (xs : List ℕ) × (ys : List ℕ) × (encode_canonical keccak tx ≡ ok xs)
        × (encode_canonical keccak ty ≡ ok ys)
        × (xs ≢ ys)
        × (keccak.hash xs ≡ keccak.hash ys)
  digest_collision tx ty d t u p q ne =
      let (xs, ex, hx) = digest-ok tx d p in
      let (ys, ey, hy) = digest-ok ty d q in
      (
        xs,
        ys,
        ex,
        ey,
        λ same. ne (encode_canonical_inj tx ty ys t u (ex ∙ ap ok same) ey),
        sym hx ∙ hy,
      )
