-- ===== src/Tests/Transactions.antt =====
-- crates/keymesh-core/src/transaction/mod.rs on concrete transactions.
use key_mesh.Prelude.{ℕ, ◌≡◌, ◌≢◌, refl, ap, List, [], ◌∷◌, ◌++◌, append_assoc, replicate, arith}
use key_mesh.Prelude.Outcome.{ok, err}
use key_mesh.Core.Errors.{expired}
use key_mesh.Core.Serialization.{new_encoder, into_bytes, write_raw, write_bytes}
use key_mesh.Core.Transaction.{
  KeymeshTransaction, IsTyped, validate, validate_at, encode_canonical, digest, domain_tag,
  keccak256,
}
use key_mesh.Tests.Parameters.{constant_hash}
use key_mesh.Core.Transaction.Layout.{layout}
use key_mesh.Core.Transaction.Binding.{validate_at_iff, digest_collision}

abbrev transfer : KeymeshTransaction
transfer = record {
  wallet = replicate 20 0xaa;
  chain_id = 1;
  nonce = 7;
  to = replicate 20 0xbb;
  value = 1_000_000_000_000_000_000;
  calldata = 0xde ∷ 0xad ∷ [];
  expiry = 1_700_000_000;
}

abbrev next_transfer : KeymeshTransaction
next_transfer = record transfer { nonce = 8 }

transfer-IsTyped : IsTyped transfer
transfer-IsTyped = record {
  wallet_20 = refl;
  chain_id_u64 = omega arith;
  nonce_u64 = omega arith;
  to_20 = refl;
  value_u128 = omega arith;
  expiry_u64 = omega arith;
}

next_transfer-IsTyped : IsTyped next_transfer
next_transfer-IsTyped = record {
  wallet_20 = refl;
  chain_id_u64 = omega arith;
  nonce_u64 = omega arith;
  to_20 = refl;
  value_u128 = omega arith;
  expiry_u64 = omega arith;
}

-- One second after the expiry.
validate_at_iff_example :
    validate_at transfer 1_700_000_001 ≡ err (expired 1_700_000_000 1_700_000_001)
validate_at_iff_example =
    (validate_at_iff transfer 1_700_000_001).1.1 (omega arith, omega arith, omega arith)

transfer_encodes : encode_canonical constant_hash transfer ≡ ok (replicate 32 0 ++ layout transfer)
unfolding encode_canonical validate new_encoder into_bytes write_raw write_bytes domain_tag
    keccak256
transfer_encodes = simp append_assoc

transfer_digest : digest constant_hash transfer ≡ ok (replicate 32 0)
unfolding digest encode_canonical validate keccak256
transfer_digest = refl

next_transfer_digest : digest constant_hash next_transfer ≡ ok (replicate 32 0)
unfolding digest encode_canonical validate keccak256
next_transfer_digest = refl

nonces_differ : transfer ≢ next_transfer
nonces_differ e = omega (arith, ap (λ (tx : KeymeshTransaction). tx.nonce) e)

digest_collision_example :
    (xs : List ℕ) × (ys : List ℕ) × (encode_canonical constant_hash transfer ≡ ok xs)
    × (encode_canonical constant_hash next_transfer ≡ ok ys)
    × (xs ≢ ys)
    × (constant_hash.hash xs ≡ constant_hash.hash ys)
digest_collision_example =
    digest_collision constant_hash transfer next_transfer (replicate 32 0) transfer-IsTyped
      next_transfer-IsTyped transfer_digest next_transfer_digest nonces_differ
