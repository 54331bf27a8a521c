-- ===== src/Prelude/Text.antt =====
-- Texts: a Rust `String` is the list of its bytes, so `as_bytes` is the identity.
use Prim.Native.Nat.{ℕ, zero, suc, ◌+◌, ◌-◌, ◌*◌, ◌/◌, ◌%◌, ◌<◌}
use mathlib.Core.Path.{◌≡◌, sym, ap, ◌∙◌}
use mathlib.Core.Logic.{inl, inr}
use native.Mathlib.Omega.{arith}
use Prim.Native.Char.{code}
use Prim.Native.String.{String}
use mathlib.Core.List.{List, [], ◌∷◌}
use key_mesh.Prelude.Tests.{ltb, if◌then◌else◌, Bool-cases}

abbrev pub Str : Type 0
Str = List ℕ

codes : String → Str
codes String.[] = []
codes (String.◌∷◌ c s) = code c ∷ codes s

-- The bytes of an ASCII literal. Shut, so that messages stay short in a proof.
unfoldable pub text : String → Str
unfolding codes
text s = codes s

-- A number in base 10, as `{}` prints it. A number has at most as many digits as its value plus 1.
digits : ℕ → ℕ → Str → Str
digits zero n rest = rest
digits (suc fuel) n rest =
    let more = digits fuel (n / 10) ((b'0' + n % 10) ∷ rest) in
    if ltb n 10 then (b'0' + n) ∷ rest else more

unfoldable pub decimal : ℕ → Str
unfolding digits
decimal n = digits (suc n) n []

-- The number that digits behind a number spell.
read_digits : ℕ → Str → ℕ
read_digits n [] = n
read_digits n (c ∷ cs) = read_digits (n * 10 + (c - b'0')) cs

read_digits-digits :
    (fuel n : ℕ) (rest : Str) → n < fuel → read_digits 0 (digits fuel n rest) ≡ read_digits n rest
unfolding digits read_digits
read_digits-digits zero n rest h = absurd (omega arith)
read_digits-digits (suc fuel) n rest h = elim (Bool-cases (ltb n 10)) [
  | inl e ↦
      let same : 0 * 10 + (48 + n - 48) ≡ n = omega arith in
      rw e (ap (λ k. read_digits k rest) same)
  | inr e ↦
      let more = read_digits-digits fuel (n / 10) ((b'0' + n % 10) ∷ rest) (ground arith) in
      let same : n / 10 * 10 + (48 + n % 10 - 48) ≡ n = omega arith in
      rw e (more ∙ ap (λ k. read_digits k rest) same)
]

pub decimal_inj : (m n : ℕ) → decimal m ≡ decimal n → m ≡ n
unfolding decimal read_digits
decimal_inj m n e =
    sym (read_digits-digits (suc m) m [] (omega arith))
    ∙ (ap (read_digits 0) e ∙ read_digits-digits (suc n) n [] (omega arith))

-- One hexadecimal digit, in lower case.
unfoldable pub hex_digit : ℕ → ℕ
hex_digit d = if ltb d 10 then b'0' + d else b'a' + (d - 10)

-- `hex::encode`.
unfoldable pub hex_encode : List ℕ → Str
unfolding hex_digit
hex_encode [] = []
hex_encode (b ∷ bytes) = hex_digit (b / 16) ∷ (hex_digit (b % 16) ∷ hex_encode bytes)
