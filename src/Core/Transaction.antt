-- ===== src/Core/Transaction.antt =====
-- crates/keymesh-core/src/transaction/mod.rs: the canonical signed transaction KEYMESH_TX_V1.
--
-- A byte array `[u8; n]` is a list of bytes, and its length is part of `IsTyped`, as are the ranges of
-- `u64` and `u128`. The field `data` is called `calldata`.
pub mod Layout
pub mod Binding
use key_mesh.Prelude.{
  ℕ, ◌+◌, ◌*◌, ◌^◌, ◌<◌, ◌≡◌, Bool, List, [], ◌∷◌, ◌++◌, leb, ltb, not, ◌==◌, length, replicate,
  All,
}
use key_mesh.Prelude.Bytes.{to_be_bytes, IsByte}
use key_mesh.Prelude.Text.{Str, text, decimal}
use key_mesh.Prelude.Keccak.{Keccak}
use key_mesh.Prelude.Outcome.{Result, ok, err, ◌>>=◌, ◌>>◌, fail_if}
use key_mesh.Core.Errors.{KeymeshError, invalid_input, expired}
use key_mesh.Core.Serialization.{◌▷◌, new_encoder, into_bytes, write_raw, write_bytes}

abbrev pub domain : Str
domain = text "KEYMESH_TX_V1"

abbrev pub max_data_bytes : ℕ
max_data_bytes = 128 * 1024

pub record KeymeshTransaction : Type 0 where
  pub wallet : List ℕ
  pub chain_id : ℕ
  pub nonce : ℕ
  pub to : List ℕ
  pub value : ℕ
  pub calldata : List ℕ
  pub expiry : ℕ

-- The ranges of the Rust types.
pub record IsTyped (tx : KeymeshTransaction) : Type 0 where
  pub wallet_20 : length tx.wallet ≡ 20
  pub chain_id_u64 : tx.chain_id < 2 ^ 64
  pub nonce_u64 : tx.nonce < 2 ^ 64
  pub to_20 : length tx.to ≡ 20
  pub value_u128 : tx.value < 2 ^ 128
  pub expiry_u64 : tx.expiry < 2 ^ 64

unfoldable pub validate : KeymeshTransaction → Result (Unit {0}) KeymeshError
validate tx = do
  fail_if (tx.chain_id == 0) (invalid_input (text "chain_id must be positive"))
  fail_if (ltb max_data_bytes (length tx.calldata))
      (invalid_input (text "data exceeds " ++ (decimal max_data_bytes ++ text " bytes")))
  ok tt

unfoldable pub is_valid_at : KeymeshTransaction → ℕ → Bool
is_valid_at tx now_seconds = leb now_seconds tx.expiry

unfoldable pub validate_at : KeymeshTransaction → ℕ → Result (Unit {0}) KeymeshError
unfolding is_valid_at
validate_at tx now_seconds = do
  validate tx
  fail_if (not (is_valid_at tx now_seconds)) (expired tx.expiry now_seconds)
  ok tt

unfoldable pub be256_u128 : ℕ → List ℕ
be256_u128 v = replicate 16 0 ++ to_be_bytes 16 v

unfoldable pub be256_u64 : ℕ → List ℕ
be256_u64 v = replicate 24 0 ++ to_be_bytes 8 v

module _ (keccak : Keccak) where
  unfoldable pub keccak256 : List ℕ → List ℕ
  keccak256 bytes = keccak.hash bytes

  unfoldable pub domain_tag : List ℕ
  unfolding keccak256
  domain_tag = keccak256 domain

  unfoldable pub encode_canonical : KeymeshTransaction → Result (List ℕ) KeymeshError
  encode_canonical tx = do
    validate tx
    ok (
        new_encoder
        ▷ write_raw domain_tag
        ▷ write_raw tx.wallet
        ▷ write_raw (be256_u64 tx.chain_id)
        ▷ write_raw (be256_u64 tx.nonce)
        ▷ write_raw tx.to
        ▷ write_raw (be256_u128 tx.value)
        ▷ write_bytes tx.calldata
        ▷ write_raw (be256_u64 tx.expiry)
        ▷ into_bytes)

  unfoldable pub digest : KeymeshTransaction → Result (List ℕ) KeymeshError
  unfolding keccak256
  digest tx = do bytes ← encode_canonical tx; ok (keccak256 bytes)
