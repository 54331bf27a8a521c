-- ===== src/Core/Signing/Domains.antt =====
-- Domain separation in crates/keymesh-core/src/signing/mod.rs.
use key_mesh.Prelude.{ℕ, ◌≡◌, refl, sym, ap, ◌∙◌, get_or, List, append_inj, arith}
use key_mesh.Prelude.Text.{text}
use key_mesh.Prelude.Outcome.{ok}
use key_mesh.Core.Crypto.{mock_crypto_provider}
use key_mesh.Core.Crypto.Mock.{mock_sign_inj}
use key_mesh.Core.Signing.{
  SigningDomain, transaction_authorization, recovery_approval, device_registration, as_bytes,
  composite, mock_sign_message,
}

-- The byte behind "KEYMESH/", in which the three tags differ.
abbrev mark : SigningDomain → ℕ
mark transaction_authorization = b't'
mark recovery_approval = b'r'
mark device_registration = b'd'

ninth-composite : (d : SigningDomain) (p : List ℕ) → get_or (composite d p) 8 0 ≡ mark d
unfolding composite as_bytes text
ninth-composite transaction_authorization p = refl
ninth-composite recovery_approval p = refl
ninth-composite device_registration p = refl

mark_inj : (d d' : SigningDomain) → mark d ≡ mark d' → d ≡ d'
mark_inj d d' e = ground arith

behind_tag : (d : SigningDomain) {p q : List ℕ} → composite d p ≡ composite d q → p ≡ q
unfolding composite
behind_tag d e = ground (arith, (append_inj (as_bytes d) (as_bytes d) refl e).1)

-- A message determines its domain and its payload, whatever bytes the payload holds.
pub composite_inj :
    (d d' : SigningDomain) (p p' : List ℕ) → composite d p ≡ composite d' p' → (d ≡ d') × (p ≡ p')
composite_inj d d' p p' e =
    let same : d ≡ d' =
      mark_inj d d' (
        sym (ninth-composite d p)
        ∙ ap (λ (xs : List ℕ). get_or xs 8 0) e
        ∙ ninth-composite d' p') in
    (same, behind_tag d (e ∙ ap (λ (x : SigningDomain). composite x p') (sym same)))

-- One signature of the mock service is a signature of one domain and one payload.
pub mock_sign_message-separates :
    (key key' : List ℕ) (d d' : SigningDomain) (p p' s : List ℕ)
    → mock_sign_message key d p ≡ ok s
    → mock_sign_message key' d' p' ≡ ok s
    → (d ≡ d') × (p ≡ p')
unfolding mock_sign_message mock_crypto_provider
mock_sign_message-separates key key' d d' p p' s h h' =
    composite_inj d d' p p' (mock_sign_inj key key' (composite d p) (composite d' p') s h h')
