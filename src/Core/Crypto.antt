-- ===== src/Core/Crypto.antt =====
-- crates/keymesh-core/src/crypto/mod.rs: the provider boundary, and the mock provider behind it.
--
-- The byte wrappers `SignatureBytes`, `PublicKeyBytes` and `PrivateKeyBytes` are their bytes.
pub mod Mock
use key_mesh.Prelude.{ℕ, Bool, List, ◌++◌, ◌==◌, length, replicate}
use key_mesh.Prelude.Bytes.{to_be_bytes, bytes_eq}
use key_mesh.Prelude.Text.{Str, text}
use key_mesh.Prelude.Outcome.{Result, ok, err, ◌>>=◌, ◌>>◌, fail_if}
use key_mesh.Core.Errors.{KeymeshError, crypto_operation_failed}

pub data Curve : Type 0 where
  secp256k1 ed25519 : Curve

abbrev pub SignatureBytes : Type 0
SignatureBytes = List ℕ

abbrev pub PublicKeyBytes : Type 0
PublicKeyBytes = List ℕ

abbrev pub PrivateKeyBytes : Type 0
PrivateKeyBytes = List ℕ

pub record CryptoProvider : Type 0 where
  pub generate_keypair : Curve → Result (PrivateKeyBytes × PublicKeyBytes) KeymeshError
  pub public_key : PrivateKeyBytes → Result PublicKeyBytes KeymeshError
  pub sign : PrivateKeyBytes → List ℕ → Result SignatureBytes KeymeshError
  pub verify : PublicKeyBytes → List ℕ → SignatureBytes → Result Bool KeymeshError

abbrev pub mock_tag : Str
mock_tag = text "KEYMESH-MOCK-NOT-A-SIGNATURE"

unfoldable pub mock_generate_keypair :
    Curve → Result (PrivateKeyBytes × PublicKeyBytes) KeymeshError
mock_generate_keypair _ = ok (replicate 32 0x11, replicate 33 0x22)

unfoldable pub mock_public_key : PrivateKeyBytes → Result PublicKeyBytes KeymeshError
mock_public_key private_key = do
  fail_if (length private_key == 0) (crypto_operation_failed (text "empty private key"))
  ok (replicate 33 0x22)

unfoldable pub mock_sign : PrivateKeyBytes → List ℕ → Result SignatureBytes KeymeshError
mock_sign private_key message = do
  fail_if (length private_key == 0) (crypto_operation_failed (text "empty private key"))
  ok (mock_tag ++ (to_be_bytes 8 (length message) ++ message))

unfoldable pub mock_verify : PublicKeyBytes → List ℕ → SignatureBytes → Result Bool KeymeshError
unfolding mock_sign
mock_verify public_key message signature = do
  fail_if (length public_key == 0) (crypto_operation_failed (text "empty public key"))
  expected ← mock_sign (replicate 32 0x11) message
  ok (bytes_eq expected signature)

unfoldable pub mock_crypto_provider : CryptoProvider
mock_crypto_provider = record {
  generate_keypair = mock_generate_keypair;
  public_key = mock_public_key;
  sign = mock_sign;
  verify = mock_verify;
}
