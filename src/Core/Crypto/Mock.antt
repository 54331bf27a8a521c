-- ===== src/Core/Crypto/Mock.antt =====
-- The mock provider of crates/keymesh-core/src/crypto/mod.rs: what it signs and what it accepts.
use key_mesh.Prelude.{
  ℕ, ◌<◌, ◌≡◌, ◌↔◌, refl, sym, ◌∙◌, true, List, ◌++◌, length, arith, append_inj, replicate,
}
use key_mesh.Prelude.Bytes.{to_be_bytes, length-to_be_bytes, bytes_eq, bytes_eq_iff}
use key_mesh.Prelude.Outcome.{ok}
use key_mesh.Core.Crypto.{mock_sign, mock_verify, mock_tag}

-- With keys that are not empty a signature determines its message.
pub mock_sign_inj :
    (key key' m m' s : List ℕ) → mock_sign key m ≡ ok s → mock_sign key' m' ≡ ok s → m ≡ m'
unfolding mock_sign
mock_sign_inj key key' m m' s h h' =
    let e : mock_tag ++ (to_be_bytes 8 (length m) ++ m)
        ≡ mock_tag ++ (to_be_bytes 8 (length m') ++ m') =
      ground arith in
    let behind_tag = (append_inj mock_tag mock_tag refl e).1 in
    (append_inj (to_be_bytes 8 (length m)) (to_be_bytes 8 (length m'))
      (length-to_be_bytes 8 _ ∙ sym (length-to_be_bytes 8 _)) behind_tag).1

-- Under any public key that is not empty, a signature of `m` is accepted for `m` and no other message.
pub mock_verify_iff :
    (key public m m' s : List ℕ)
    → 0 < length public
    → mock_sign key m ≡ ok s
    → (mock_verify public m' s ≡ ok true) ↔ (m ≡ m')
unfolding mock_verify
mock_verify_iff key public m m' s h signed = (
  λ accepted. mock_sign_inj key (replicate 32 0x11) m m' s signed (ground (arith, compared m')),
  λ same. ground (arith, compared m'),
)
  where
    compared :
        (n : List ℕ)
        → (bytes_eq (mock_tag ++ (to_be_bytes 8 (length n) ++ n)) s ≡ true)
          ↔ (mock_tag ++ (to_be_bytes 8 (length n) ++ n) ≡ s)
    compared n = bytes_eq_iff _ s
