-- ===== src/Tests/Residues.antt =====
-- The integers modulo 257, in the place of the scalars of k256.
use mathlib.Core.HLevel.{is_prop→PathP}
use native.Mathlib.Bridge.{le_prop}
use native.Mathlib.Nat.{mod-add-div, mul_comm, mul_assoc, mul-add, mul-add-mod_self_left}
use key_mesh.Prelude.{
  ℕ, zero, suc, ◌+◌, ◌-◌, ◌*◌, ◌/◌, ◌%◌, ◌^◌, ◌≤◌, ◌<◌, ◌≡◌, ◌≢◌, refl, sym, ap, ◌∙◌, Bool, true,
  ◌&&◌, ◌||◌, List, Option, none, some, arith, ◌==◌, if◌then◌else◌, leb, ==_iff, Bool-cases, inl,
  inr,
}
use key_mesh.Prelude.Bytes.{to_be_bytes, from_be_bytes}
use key_mesh.Tss.Interactive.{curve_order}
use key_mesh.TssProto.Field.{Scalar}

pub record Residue : Type 0 where
  pub value : ℕ
  pub small : value < 257

pub ext : {a b : Residue} → a.value ≡ b.value → a ≡ b
ext {a} {b} p = λ i. record {
  value = p i;
  small = is_prop→PathP (λ j. p j < 257) (λ j. le_prop) a.small b.small i;
}

abbrev pub residue : ℕ → Residue
residue n = record { value = n % 257; small = omega arith }

pub mod_mul : (m c : ℕ) → (m % 257 * c) % 257 ≡ (m * c) % 257
mod_mul m c =
    let parts : m * c ≡ 257 * (m / 257 * c) + m % 257 * c =
      ap (λ k. k * c) (sym (mod-add-div m 257)) ∙ omega arith in
    rw (parts, mul-add-mod_self_left 257 (m / 257 * c) (m % 257 * c)) refl

pub mul_mod : (c m : ℕ) → (c * (m % 257)) % 257 ≡ (c * m) % 257
mul_mod c m = rw (mul_comm c (m % 257), mod_mul m c, mul_comm m c) refl

abbrev pub inverse_of : ℕ → ℕ
inverse_of v = v ^ 255

-- Whether each number below `n` but 0 has its inverse.
invertible_below : ℕ → Bool
invertible_below zero = true
invertible_below (suc n) = (n == 0 || (n * (inverse_of n % 257)) % 257 == 1) && invertible_below n

all_invertible : invertible_below 257 ≡ true
unfolding invertible_below
all_invertible = refl

both : (a b : Bool) → a && b ≡ true → (a ≡ true) × (b ≡ true)
both a b h = ground (arith, h)

unit_of : (n x : ℕ) → (n == 0 || x == 1) ≡ true → n ≢ 0 → x ≡ 1
unit_of n x h nonzero = ground arith

invertible :
    (n v : ℕ) → invertible_below n ≡ true → v < n → v ≢ 0 → (v * (inverse_of v % 257)) % 257 ≡ 1
unfolding invertible_below
invertible zero v h below nonzero = absurd (omega arith)
invertible (suc n) v h below nonzero =
    let (here, rest) = both _ (invertible_below n) h in
    elim (Bool-cases (n == v)) [
      | inl e ↦ let same : n ≡ v = (==_iff n v).0 e in unit_of v _ (rw same at here) nonzero
      | inr e ↦ invertible n v rest (ground arith) nonzero
    ]

abbrev pub inverted : Residue → Option Residue
inverted a = if a.value == 0 then none else some (residue (inverse_of a.value))

pub inverted-some :
    (a : Residue)
    → a ≢ residue 0
    → (b : Residue) × (inverted a ≡ some b) × (residue (a.value * b.value) ≡ residue 1)
inverted-some a nonzero =
    let differs : a.value ≢ 0 = λ e. nonzero (ext e) in
    (
      residue (inverse_of a.value),
      ground arith,
      ext (invertible 257 a.value all_invertible a.small differs),
    )

abbrev pub residue_of : List ℕ → Option Residue
residue_of bytes =
    if leb (from_be_bytes curve_order) (from_be_bytes bytes)
    then none
    else some (residue (from_be_bytes bytes))

pub residue_of-order :
    (bytes : List ℕ) → from_be_bytes curve_order ≤ from_be_bytes bytes → residue_of bytes ≡ none
residue_of-order bytes h = ground (arith, h)

instance abbrev pub modular : Scalar Residue
modular = record {
  zero = residue 0;
  one = residue 1;
  add = λ a b. residue (a.value + b.value);
  mul = λ a b. residue (a.value * b.value);
  neg = λ a. residue (257 - a.value);
  sub = λ a b. residue (a.value + (257 - b.value));
  from_u64 = residue;
  is_zero = λ a. a.value == 0;
  invert = inverted;
  to_bytes = λ a. to_be_bytes 32 a.value;
  from_repr = residue_of;
  add_assoc = λ a b c. ext (omega arith);
  add_comm = λ a b. ext (omega arith);
  zero-add = λ a. ext (omega (arith, a.small));
  neg-add = λ a. ext (omega (arith, a.small));
  sub-add = λ a b. ext (omega (arith, a.small, b.small));
  mul_assoc = λ a b c. ext (
      mod_mul (a.value * b.value) c.value
      ∙ (ap (λ k. k % 257) (mul_assoc a.value b.value c.value)
          ∙ sym (mul_mod a.value (b.value * c.value))));
  mul_comm = λ a b. ext (ap (λ k. k % 257) (mul_comm a.value b.value));
  one-mul = λ a. ext (omega (arith, a.small));
  mul-add = λ a b c. ext (
      mul_mod a.value (b.value + c.value)
      ∙ (ap (λ k. k % 257) (mul-add a.value b.value c.value) ∙ omega arith));
  from_u64_inj = λ m n hm hn e. let same : m % 257 ≡ n % 257 = ap Residue.value e in omega arith;
  is_zero_iff =
      λ a. ((λ h. ext ((==_iff a.value 0).0 h)), λ e. (==_iff a.value 0).1 (ap Residue.value e));
  from_repr-order = residue_of-order;
  invert-some = inverted-some;
}
