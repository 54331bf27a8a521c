-- ===== src/Core/Signing.antt =====
-- crates/keymesh-core/src/signing/mod.rs: domain-separated messages, and the mock signing service.
pub mod Domains
pub mod Tss
use key_mesh.Prelude.{ℕ, List, [], ◌∷◌, ◌++◌}
use key_mesh.Prelude.Text.{Str, text}
use key_mesh.Prelude.Outcome.{Result}
use key_mesh.Core.Errors.{KeymeshError}
use key_mesh.Core.Crypto.{CryptoProvider, SignatureBytes, PrivateKeyBytes, mock_crypto_provider}

pub data SigningDomain : Type 0 where
  transaction_authorization recovery_approval device_registration : SigningDomain

unfoldable pub as_bytes : SigningDomain → Str
as_bytes transaction_authorization = text "KEYMESH/tx-auth/v1"
as_bytes recovery_approval = text "KEYMESH/recovery/v1"
as_bytes device_registration = text "KEYMESH/device-reg/v1"

-- The trait: one method.
pub record SigningService : Type 0 where
  pub sign_message : PrivateKeyBytes → SigningDomain → List ℕ → Result SignatureBytes KeymeshError

-- The tag of the domain, a zero byte and the payload.
unfoldable pub composite : SigningDomain → List ℕ → List ℕ
composite domain payload = as_bytes domain ++ (0x00 ∷ payload)

unfoldable pub mock_sign_message :
    PrivateKeyBytes → SigningDomain → List ℕ → Result SignatureBytes KeymeshError
mock_sign_message key domain payload = mock_crypto_provider.sign key (composite domain payload)

unfoldable pub mock_signing_service : SigningService
unfolding mock_sign_message
mock_signing_service = record { sign_message = mock_sign_message }
