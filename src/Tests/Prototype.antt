-- ===== src/Tests/Prototype.antt =====
-- crates/keymesh-tss-proto on a key of two of three over the integers modulo 257.
use key_mesh.Prelude.{
  ℕ, ◌+◌, ◌<◌, ◌≡◌, ◌∙◌, refl, false, List, [], ◌∷◌, Option, some, get_elem?, replicate, drop,
  arith, ◌==◌, ==_iff,
}
use key_mesh.Prelude.Text.{Str}
use key_mesh.Prelude.Outcome.{Result, ok}
use key_mesh.Tss.Session.{SessionBinding, derive_session_id}
use key_mesh.Tss.Signing.{half_order, bytes_gt}
use key_mesh.TssProto.Shamir.{ParticipantShare, lagrange_interpolate_at_zero}
use key_mesh.TssProto.Keygen.{
  KeygenLibrary, ThresholdKeyMaterial, contributions, secret_from, share_from, shares_from,
  material, is_supported, ethereum_address_from_verifying_key, distributed_keygen,
  distributed_keygen_seeded,
}
use key_mesh.TssProto.Keygen.Shares.{seeded-shares, distributed_keygen_checked}
use key_mesh.TssProto.Signature.{SigningLibrary, ThresholdSignature, threshold_sign}
use key_mesh.TssProto.Signature.Quorum.{signed_alone, threshold_sign-quorum}
use key_mesh.Tests.Parameters.{constant_hash}
use key_mesh.Tests.Residues.{Residue, residue, modular}

-- A generator counts, and the group's key is 5.
abbrev counting : KeygenLibrary Residue ℕ ℕ
counting = record {
  random = λ rng. (residue rng, rng + 1);
  public_key = λ bytes. some 5;
  encoded_point = λ k. replicate 65 k;
}

one_signature :
    (x : ℕ) (digest bytes : List ℕ) (recovery_id : ℕ)
    → ◌≡◌ {A = Result (List ℕ × ℕ) Str} (ok (replicate 64 1, 1)) (ok (bytes, recovery_id))
    → (recovery_id < 4)
      × (bytes_gt (drop 32 bytes) half_order ≡ false)
      × (sig : Unit {0}) × (◌≡◌ {A = Option (Unit {0})} (some tt) (some sig))
      × (◌≡◌ {A = Result ℕ Str} (ok 5) (ok 5))
unfolding bytes_gt
one_signature x digest bytes recovery_id e =
    let same : replicate 64 1 ≡ bytes = ground (arith, e) in
    (ground (arith, e), rw (← same) refl, tt, refl, refl)

-- Every key signs alike, and every signature gives back the key 5.
abbrev five : SigningLibrary ℕ (Unit {0}) ℕ
five = record {
  key_eq = ◌==◌;
  key_eq_iff = ==_iff;
  signing_key = λ bytes. ok 7;
  verifying_key = λ x. 5;
  sign_prehash_recoverable = λ x digest. ok (replicate 64 1, 1);
  signature_from_bytes = λ bytes. some tt;
  recover_from_prehash = λ digest sig recovery_id. ok 5;
  sign-recover = one_signature;
}

abbrev drawn : List (Residue × Residue)
drawn = (contributions counting 3 1).0

abbrev key : ThresholdKeyMaterial Residue ℕ
key = record {
  shares = shares_from drawn 1 3;
  group_verifying_key = 5;
  ethereum_address = ethereum_address_from_verifying_key constant_hash counting 5;
  threshold = 2;
  total = 3;
}

abbrev first : ParticipantShare Residue
first = record { index = 1; secret_share = share_from (residue 0) drawn (residue 1) }

abbrev third : ParticipantShare Residue
third = record { index = 3; secret_share = share_from (residue 0) drawn (residue 3) }

key_seeded : distributed_keygen_seeded constant_hash counting 3 2 1 ≡ some key
unfolding distributed_keygen_seeded is_supported material
key_seeded = refl

first_of_key : get_elem? (shares_from drawn 1 3) 0 ≡ some first
unfolding shares_from
first_of_key = refl

third_of_key : get_elem? (shares_from drawn 1 3) 2 ≡ some third
unfolding shares_from
third_of_key = refl

seeded-shares_example :
    (lagrange_interpolate_at_zero (first ∷ third ∷ []) ≡ some (secret_from (residue 0) drawn))
    × (◌≡◌ {A = Option ℕ} (some 5) (some 5))
seeded-shares_example =
    seeded-shares constant_hash counting 3 2 1 key 0 2 first third key_seeded first_of_key
      third_of_key (omega arith)

abbrev binding : SessionBinding
binding = record {
  wallet = replicate 20 1;
  chain_id = 31_337;
  nonce = 0;
  digest = replicate 32 2;
  policy_version = 1;
  signing_protocol_version = b'p' ∷ [];
  random = replicate 32 3;
}

abbrev id : List ℕ
id = replicate 32 0

binding_id : derive_session_id constant_hash binding ≡ id
unfolding derive_session_id
binding_id = refl

key_generated : distributed_keygen constant_hash counting 3 2 1 ≡ some key
key_generated = distributed_keygen_checked constant_hash counting 3 2 1 ∙ key_seeded

one_key :
    (bytes : List ℕ) (vk : ℕ)
    → ◌≡◌ {A = Option ℕ} (some 5) (some vk)
    → (x : ℕ) × (◌≡◌ {A = Result ℕ Str} (ok 7) (ok x)) × (5 ≡ vk)
one_key bytes vk e = (7, refl, ground (arith, e))

threshold_sign-quorum_example :
    (x : ℕ) × (◌≡◌ {A = Result ℕ Str} (ok 7) (ok x))
    × (◌≡◌ {A = ℕ} 5 5)
    × (threshold_sign constant_hash five
          (first ∷ third ∷ [])
          5
          binding
          (derive_session_id constant_hash binding)
          2
        ≡ signed_alone binding (derive_session_id constant_hash binding) (ok (replicate 64 1, 1)))
threshold_sign-quorum_example =
    threshold_sign-quorum constant_hash counting five 3 2 1 key binding 0 2 first third one_key
      key_generated first_of_key third_of_key (omega arith)

abbrev sig : ThresholdSignature
sig = record {
  r = replicate 32 1;
  s = replicate 32 1;
  v = 28;
  digest = replicate 32 2;
  session_id = derive_session_id constant_hash binding;
}

signs :
    threshold_sign constant_hash five
      (first ∷ third ∷ [])
      5
      binding
      (derive_session_id constant_hash binding)
      2
    ≡ some (ok sig)
signs =
    (threshold_sign-quorum constant_hash counting five 3 2 1 key binding 0 2 first third one_key
      key_generated first_of_key third_of_key (omega arith)).3
