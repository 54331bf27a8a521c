-- ===== src/Core/Recovery/Identity.antt =====
-- The canonical encoding of crates/keymesh-core/src/recovery/mod.rs: what it binds, and what it
-- leaves out.
use Prim.Native.Nat.{bit_xor}
use mathlib.Core.List.{foldl}
use key_mesh.Core.Serialization.{◌▷◌}
use key_mesh.Prelude.{
  if◌then◌else◌, ◌*◌, replicate, Option, ℕ, ◌%◌, ◌^◌, ◌≤◌, ◌<◌, ◌≡◌, ◌↔◌, refl, sym, ap, ◌∙◌, List,
  [], ◌∷◌, ◌++◌, none, some, length, append_assoc, append_inj, arith, ltb, true,
}
use mathlib.Core.Option.{some-injective}
use key_mesh.Prelude.Text.{Str, text}
use key_mesh.Prelude.Bytes.{u64_inj, to_be_bytes, length-to_be_bytes, to_be_bytes_inj}
use key_mesh.Core.Serialization.{
  new_encoder, into_bytes, write_u8, write_u64, write_raw, write_bytes,
}
use key_mesh.Core.Recovery.{RecoveryRequest, approve, cancel, finalize}
use key_mesh.Core.Recovery.Invariant.{Call, step, run}

abbrev pub domain : Str
domain = text "KEYMESH_RECOVERY_V1"

abbrev pub canonical_version : ℕ
canonical_version = 1

-- One round of FNV-1a on a `u64`.
fnv_step : ℕ → ℕ → ℕ
fnv_step hash byte = bit_xor hash byte * 0x0000_0100_0000_01B3 % 2 ^ 64

unfoldable pub keccakless_domain_tag : List ℕ
unfolding fnv_step
keccakless_domain_tag =
    to_be_bytes 8 (foldl fnv_step 0xcbf2_9ce4_8422_2325 domain) ++ replicate 24 0

abbrev pub unwrap_or_empty : Option Str → Str
unwrap_or_empty none = []
unwrap_or_empty (some s) = s

-- `none` is the panic of `expect("quorum fits u8")`.
unfoldable pub canonical_bytes : RecoveryRequest → Option (List ℕ)
canonical_bytes r =
    if ltb r.quorum_snapshot 256
    then some (
        new_encoder
        ▷ write_raw keccakless_domain_tag
        ▷ write_u8 canonical_version
        ▷ write_u64 r.id
        ▷ write_bytes r.wallet
        ▷ write_bytes r.initiator
        ▷ write_bytes (unwrap_or_empty r.replaced_device)
        ▷ write_bytes r.new_device
        ▷ write_u64 r.initiated_at
        ▷ write_u8 r.quorum_snapshot
        ▷ write_u64 r.timelock_snapshot_seconds
        ▷ into_bytes)
    else none

-- `canonical_bytes` panics exactly on a quorum that does not fit a byte.
pub canonical_bytes_panics :
    (r : RecoveryRequest) → (canonical_bytes r ≡ none) ↔ (256 ≤ r.quorum_snapshot)
unfolding canonical_bytes
canonical_bytes_panics r = ground arith

step-canonical : (r : RecoveryRequest) (c : Call) → canonical_bytes (step r c) ≡ canonical_bytes r
unfolding canonical_bytes step approve cancel finalize
step-canonical r c = ground arith

-- No call changes the canonical bytes: approvals, status and timelock are not part of the identity.
pub run-canonical :
    (r : RecoveryRequest) (cs : List Call) → canonical_bytes (run r cs) ≡ canonical_bytes r
unfolding run
run-canonical r [] = refl
run-canonical r (c ∷ cs) = step-canonical (run r cs) c ∙ run-canonical r cs

-- The ranges of the Rust types, and lengths that fit their prefixes.
pub record IsTyped (r : RecoveryRequest) : Type 0 where
  pub id_u64 : r.id < 2 ^ 64
  pub wallet_len : length r.wallet < 2 ^ 32
  pub initiator_len : length r.initiator < 2 ^ 32
  pub replaced_len : length (unwrap_or_empty r.replaced_device) < 2 ^ 32
  pub new_len : length r.new_device < 2 ^ 32
  pub initiated_u64 : r.initiated_at < 2 ^ 64
  pub timelock_u64 : r.timelock_snapshot_seconds < 2 ^ 64

abbrev prefixed : List ℕ → List ℕ → List ℕ
prefixed bytes rest = to_be_bytes 4 (length bytes % 2 ^ 32) ++ (bytes ++ rest)

prefixed_inj :
    (xs ys : List ℕ) {us vs : List ℕ}
    → length xs < 2 ^ 32
    → length ys < 2 ^ 32
    → prefixed xs us ≡ prefixed ys vs
    → (xs ≡ ys) × (us ≡ vs)
prefixed_inj xs ys hx hy e =
    let (len, more) =
      append_inj (to_be_bytes 4 (length xs % 2 ^ 32)) (to_be_bytes 4 (length ys % 2 ^ 32))
        (length-to_be_bytes 4 _ ∙ sym (length-to_be_bytes 4 _)) e in
    let lengths =
      to_be_bytes_inj 4 {v = length xs % 2 ^ 32} {w = length ys % 2 ^ 32} (omega arith)
        (omega arith) len in
    append_inj xs ys (omega arith) more

-- The parts behind the domain tag and the version.
abbrev layout : RecoveryRequest → List ℕ
layout r =
    to_be_bytes 8 r.id
    ++ prefixed r.wallet (
        prefixed r.initiator (
          prefixed (unwrap_or_empty r.replaced_device) (
            prefixed r.new_device (
              to_be_bytes 8 r.initiated_at
              ++ (r.quorum_snapshot ∷ to_be_bytes 8 r.timelock_snapshot_seconds)))))

canonical_bytes-layout :
    (r : RecoveryRequest)
    → r.quorum_snapshot < 256
    → canonical_bytes r ≡ some (keccakless_domain_tag ++ (canonical_version ∷ layout r))
unfolding canonical_bytes new_encoder into_bytes write_u8 write_u64 write_raw write_bytes
canonical_bytes-layout r h =
    let fits : ltb r.quorum_snapshot 256 ≡ true = ground arith in
    rw fits (ap some (simp append_assoc))

-- Two requests in the ranges of the Rust types with the same canonical bytes agree on every field of
-- the identity, where no replaced device and an empty one count as the same.
pub canonical_bytes_inj :
    (r q : RecoveryRequest) (bytes : List ℕ)
    → IsTyped r
    → IsTyped q
    → canonical_bytes r ≡ some bytes
    → canonical_bytes q ≡ some bytes
    → (r.id ≡ q.id)
      × (r.wallet ≡ q.wallet)
      × (r.initiator ≡ q.initiator)
      × (unwrap_or_empty r.replaced_device ≡ unwrap_or_empty q.replaced_device)
      × (r.new_device ≡ q.new_device)
      × (r.initiated_at ≡ q.initiated_at)
      × (r.quorum_snapshot ≡ q.quorum_snapshot)
      × (r.timelock_snapshot_seconds ≡ q.timelock_snapshot_seconds)
canonical_bytes_inj r q bytes t u hr hq =
    let behind_tag =
      (append_inj keccakless_domain_tag keccakless_domain_tag refl (
        some-injective _ _ (
          sym (canonical_bytes-layout r (small r hr))
          ∙ hr
          ∙ sym hq
          ∙ canonical_bytes-layout q (small q hq)))).1 in
    let e = cons_inj behind_tag in
    let (id, e1) = u64_inj t.id_u64 u.id_u64 e.1 in
    let (wallet, e2) = prefixed_inj r.wallet q.wallet t.wallet_len u.wallet_len e1 in
    let (initiator, e3) = prefixed_inj r.initiator q.initiator t.initiator_len u.initiator_len e2 in
    let (replaced, e4) =
      prefixed_inj (unwrap_or_empty r.replaced_device) (unwrap_or_empty q.replaced_device)
        t.replaced_len u.replaced_len e3 in
    let (device, e5) = prefixed_inj r.new_device q.new_device t.new_len u.new_len e4 in
    let (initiated, e6) = u64_inj t.initiated_u64 u.initiated_u64 e5 in
    let (quorum, e7) = cons_inj e6 in
    let timelock = to_be_bytes_inj 8 t.timelock_u64 u.timelock_u64 e7 in
    (id, wallet, initiator, replaced, device, initiated, quorum, timelock)
  where
    small : (p : RecoveryRequest) → canonical_bytes p ≡ some bytes → p.quorum_snapshot < 256
    small p h = ground (arith, canonical_bytes_panics p)

    cons_inj : {x y : ℕ} {xs ys : List ℕ} → x ∷ xs ≡ y ∷ ys → (x ≡ y) × (xs ≡ ys)
    cons_inj h = ground arith
