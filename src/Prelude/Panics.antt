-- ===== src/Prelude/Panics.antt =====
-- Calls that may fail or panic: `none` is a panic, and `some` holds what the call returns.
use mathlib.Core.Path.{◌≡◌, refl}
use mathlib.Core.Logic.{◌⊎◌, inl, inr}
use mathlib.Core.Bool.{Bool, true, false}
use mathlib.Core.Option.{Option, none, some}
use key_mesh.Prelude.Outcome.{Result, ok, err}

abbrev pub Attempt : Type 0 → Type 0 → Type 0
Attempt A E = Option (Result A E)

infixl 5 ◌>>=◌ ◌>>◌
unfoldable pub ◌>>=◌ : {A B E : Type 0} → Attempt A E → (A → Attempt B E) → Attempt B E
none >>= f = none
some (ok a) >>= f = f a
some (err e) >>= f = some (err e)

abbrev pub ◌>>◌ : {B E : Type 0} → Attempt (Unit {0}) E → Attempt B E → Attempt B E
m >> k = m >>= λ _. k

-- `unwrap`, and an index into a map or a vector.
unfoldable pub unwrap : {A E : Type 0} → Option A → Attempt A E
unwrap none = none
unwrap (some a) = some (ok a)

-- `unwrap` of a result.
unfoldable pub unwrap_result : {A D E : Type 0} → Result A D → Attempt A E
unwrap_result (ok a) = some (ok a)
unwrap_result (err e) = none

-- `assert!`.
unfoldable pub assert : {E : Type 0} → Bool → Attempt (Unit {0}) E
assert true = some (ok tt)
assert false = none

-- `map_err(|e| f(e))?`.
unfoldable pub map_err : {A D E : Type 0} → (D → E) → Result A D → Attempt A E
map_err f (ok a) = some (ok a)
map_err f (err e) = some (err (f e))

-- `ok_or_else(|| e)?`.
unfoldable pub ok_or : {A E : Type 0} → Option A → E → Attempt A E
ok_or none e = some (err e)
ok_or (some a) e = some (ok a)

-- `if test { return Err(e) }`.
unfoldable pub fail_when : {E : Type 0} → Bool → E → Attempt (Unit {0}) E
fail_when true e = some (err e)
fail_when false e = some (ok tt)

-- A chain returned a value where each of its steps did.
pub bind-ok :
    {A B E : Type 0} (m : Attempt A E) (f : A → Attempt B E) (b : B)
    → m >>= f ≡ some (ok b)
    → (a : A) × (m ≡ some (ok a)) × (f a ≡ some (ok b))
unfolding ◌>>=◌
bind-ok none f b h = cc
bind-ok (some (ok a)) f b h = (a, refl, h)
bind-ok (some (err e)) f b h = cc

-- The other way round.
pub bind-returns :
    {A B E : Type 0} {m : Attempt A E} (f : A → Attempt B E) (a : A) {b : B}
    → m ≡ some (ok a)
    → f a ≡ some (ok b)
    → m >>= f ≡ some (ok b)
unfolding ◌>>=◌
bind-returns f a e e' = rw e e'

-- The same for a proof that goes on from the value.
pub through {ℓ} :
    {A B E : Type 0} {P : Type ℓ} {m : Attempt A E} {f : A → Attempt B E} {b : B}
    → m >>= f ≡ some (ok b)
    → ((a : A) → m ≡ some (ok a) → f a ≡ some (ok b) → P)
    → P
through {m} {f} {b} h rest = let (a, e, e') = bind-ok m f b h in rest a e e'

pub returned : {A E : Type 0} {a b : A} → ◌≡◌ {A = Attempt A E} (some (ok a)) (some (ok b)) → a ≡ b
returned h = cc

pub unwrap-ok :
    {A E : Type 0} (o : Option A) (a : A) → unwrap {A = A} {E = E} o ≡ some (ok a) → o ≡ some a
unfolding unwrap
unwrap-ok none a h = cc
unwrap-ok (some b) a h = cc

pub unwrap_result-ok :
    {A D E : Type 0} (r : Result A D) (a : A)
    → unwrap_result {A = A} {D = D} {E = E} r ≡ some (ok a)
    → r ≡ ok a
unfolding unwrap_result
unwrap_result-ok (ok b) a h = cc
unwrap_result-ok (err e) a h = cc

pub assert-ok : {E : Type 0} (b : Bool) → assert {E = E} b ≡ some (ok tt) → b ≡ true
unfolding assert
assert-ok true h = refl
assert-ok false h = cc

pub map_err-ok :
    {A D E : Type 0} (f : D → E) (r : Result A D) (a : A) → map_err f r ≡ some (ok a) → r ≡ ok a
unfolding map_err
map_err-ok f (ok b) a h = cc
map_err-ok f (err e) a h = cc

pub ok_or-ok : {A E : Type 0} (o : Option A) (e : E) (a : A) → ok_or o e ≡ some (ok a) → o ≡ some a
unfolding ok_or
ok_or-ok none e a h = cc
ok_or-ok (some b) e a h = cc

pub fail_when-ok :
    {E : Type 0} (test : Bool) (e : E) → fail_when test e ≡ some (ok tt) → test ≡ false
unfolding fail_when
fail_when-ok true e h = cc
fail_when-ok false e h = refl

-- A call panics or fails, or returns.
pub Attempt-cases :
    {A E : Type 0} (m : Attempt A E)
    → ((m ≡ none) ⊎ ((e : E) × (m ≡ some (err e)))) ⊎ ((a : A) × (m ≡ some (ok a)))
Attempt-cases none = inl (inl refl)
Attempt-cases (some (err e)) = inl (inr (e, refl))
Attempt-cases (some (ok a)) = inr (a, refl)
