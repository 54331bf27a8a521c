-- ===== src/Prelude/Outcome.antt =====
-- `Result`: a value or an error, with the `?` operator as bind.
use mathlib.Core.Bool.{Bool, true, false}
use mathlib.Core.Path.{◌≡◌, refl}
use mathlib.Core.Logic.{◌⊎◌, inl, inr}

pub data Result {ℓ κ} (A : Type ℓ) (E : Type κ) : Type (ℓ ⊔ κ) where
  ok : A → Result A E
  err : E → Result A E

infixl 5 ◌>>=◌ ◌>>◌
abbrev pub ◌>>=◌ {ℓ κ ι} :
    {A : Type ℓ} {B : Type κ} {E : Type ι} → Result A E → (A → Result B E) → Result B E
ok a >>= f = f a
err e >>= f = err e

abbrev pub ◌>>◌ {ℓ κ} : {B : Type ℓ} {E : Type κ} → Result (Unit {0}) E → Result B E → Result B E
m >> k = m >>= λ _. k

-- `if test { return Err(e) }`.
abbrev pub fail_if {κ} : {E : Type κ} → Bool → E → Result (Unit {0}) E
fail_if true e = err e
fail_if false e = ok tt

abbrev pub is_ok {ℓ κ} : {A : Type ℓ} {E : Type κ} → Result A E → Bool
is_ok (ok a) = true
is_ok (err e) = false

pub Result-cases {ℓ κ} :
    {A : Type ℓ} {E : Type κ} (r : Result A E) → ((a : A) × (r ≡ ok a)) ⊎ ((e : E) × (r ≡ err e))
Result-cases (ok a) = inl (a, refl)
Result-cases (err e) = inr (e, refl)
