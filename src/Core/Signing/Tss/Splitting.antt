-- ===== src/Core/Signing/Tss/Splitting.antt =====
-- `split` as crates/keymesh-core/src/signing/tss.rs uses it, and the protocol versions that it admits.
use key_mesh.Prelude.{
  ℕ, ◌≤◌, ◌<◌, ◌≡◌, ◌≢◌, ◌↔◌, refl, ap, ◌∙◌, true, List, [], ◌∷◌, ◌++◌, length, length-append, All,
  arith, Bool-cases, inl, inr, ◌==◌,
}
use key_mesh.Prelude.Text.{Str}
use key_mesh.Core.Signing.Tss.{
  all_of, split, cons_first, two_parts, is_version_char, is_valid_signing_protocol_version,
}

abbrev pub Lacks : ℕ → Str → Type 0
Lacks sep = All (λ c. c ≢ sep)

-- Splitting never gives no part.
split-cons : (sep : ℕ) (v : Str) → (a : Str) × (parts : List Str) × (split sep v ≡ a ∷ parts)
unfolding split
split-cons sep [] = ([], [], refl)
split-cons sep (c ∷ cs) = elim (Bool-cases (c == sep)) [
  | inl h ↦ ([], split sep cs, rw h)
  | inr h ↦ let (a, parts, e) = split-cons sep cs in (c ∷ a, parts, rw h (ap (cons_first c) e))
]

split-one : (sep : ℕ) (v b : Str) → split sep v ≡ b ∷ [] → (v ≡ b) × Lacks sep b
unfolding split
split-one sep [] b e = let h : [] ≡ b = ground arith in rw (← h) (refl, tt)
split-one sep (c ∷ cs) b e =
    let (p, ps, q) = split-cons sep cs in
    elim (Bool-cases (c == sep)) [
      | inl h ↦ cc (rw (h, q) at e)
      | inr h ↦
          let parts : (c ∷ p) ∷ ps ≡ b ∷ [] = rw (h, q) at e in
          let (same, lacks) = split-one sep cs p (q ∙ cc parts) in
          let first : c ∷ p ≡ b = cc parts in rw (← first) (ap (◌∷◌ c) same, (ground arith, lacks))
    ]

split-two :
    (sep : ℕ) (v a b : Str)
    → split sep v ≡ a ∷ b ∷ []
    → (v ≡ a ++ (sep ∷ b)) × Lacks sep a × Lacks sep b
unfolding split
split-two sep [] a b e = cc
split-two sep (c ∷ cs) a b e =
    let (p, ps, q) = split-cons sep cs in
    elim (Bool-cases (c == sep)) [
      | inl h ↦
          let parts : [] ∷ split sep cs ≡ a ∷ b ∷ [] = rw h at e in
          let (same, lacks) = split-one sep cs b (cc parts) in
          let first : [] ≡ a = cc parts in
          let here : c ≡ sep = ground arith in rw (← first) (cc (same, here), tt, lacks)
      | inr h ↦
          let parts : (c ∷ p) ∷ ps ≡ a ∷ b ∷ [] = rw (h, q) at e in
          let (same, left, right) = split-two sep cs p b (q ∙ cc parts) in
          let first : c ∷ p ≡ a = cc parts in
          rw (← first) (ap (◌∷◌ c) same, (ground arith, left), right)
    ]

split-lacking : (sep : ℕ) (b : Str) → Lacks sep b → split sep b ≡ b ∷ []
unfolding split
split-lacking sep [] h = refl
split-lacking sep (c ∷ cs) h = ground (arith, split-lacking sep cs h.1)

split-join :
    (sep : ℕ) (a b : Str) → Lacks sep a → Lacks sep b → split sep (a ++ (sep ∷ b)) ≡ a ∷ b ∷ []
unfolding split
split-join sep [] b ha hb = ground (arith, split-lacking sep b hb)
split-join sep (c ∷ a) b ha hb = ground (arith, split-join sep a b ha.1 hb)

two_parts-true :
    (parts : List Str)
    → two_parts parts ≡ true
    → (a : Str) × (b : Str) × (parts ≡ a ∷ b ∷ []) × (0 < length a) × (0 < length b)
unfolding two_parts
two_parts-true (a ∷ b ∷ []) h = (a, b, refl, ground arith, ground arith)
two_parts-true [] h = cc
two_parts-true (a ∷ []) h = cc
two_parts-true (a ∷ b ∷ c ∷ parts) h = cc

-- A name, one slash and a version, neither empty nor with a further slash.
abbrev pub NameSlashVersion : Str → Type 0
NameSlashVersion v =
    (a : Str) × (b : Str) × (v ≡ a ++ (b'/' ∷ b))
    × (0 < length a)
    × (0 < length b)
    × Lacks b'/' a
    × Lacks b'/' b

-- A protocol version is admitted exactly when it has at most 64 bytes, all of them letters, digits or
-- one of ". _ - /", and is a name, one slash and a version, neither empty nor with a further slash.
pub signing_protocol_version_iff :
    (v : Str)
    → (is_valid_signing_protocol_version v ≡ true)
      ↔ ((length v ≤ 64) × (all_of is_version_char v ≡ true) × NameSlashVersion v)
unfolding is_valid_signing_protocol_version
signing_protocol_version_iff v = (
  λ h.
      let (a, b, e, ha, hb) = two_parts-true (split b'/' v) (ground arith) in
      let (same, left, right) = split-two b'/' v a b e in
      (ground arith, ground arith, (a, b, same, ha, hb, left, right)),
  λ r.
      let (a, b, same, ha, hb, left, right) = r.2 in
      ground (
        arith,
        ap (split b'/') same ∙ split-join b'/' a b left right,
        ap length same,
        length-append a (b'/' ∷ b),
      ),
)
