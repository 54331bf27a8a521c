-- ===== src/Prelude/Bytes.antt =====
-- Byte strings: comparison, and the big-endian integers of `to_be_bytes` and `from_be_bytes`.
use Prim.Native.Nat.{ℕ, zero, suc, ◌+◌, ◌*◌, ◌/◌, ◌%◌, ◌^◌, ◌<◌}
use mathlib.Core.Path.{◌≡◌, refl, ap, sym, ◌∙◌}
use mathlib.Core.Logic.{◌↔◌}
use mathlib.Core.Bool.{Bool, true, false, ◌&&◌}
use mathlib.Core.List.{List, [], ◌∷◌, ◌++◌, foldl, foldl-append, append-nil, append_assoc}
use native.Mathlib.Omega.{arith}
use native.Mathlib.Nat.{pow-suc, add-zero, zero-add, add-suc, suc-add}
use key_mesh.Prelude.Tests.{◌==◌}
use key_mesh.Prelude.Lists.{length, length-append, All, All-append, append_inj}

unfoldable pub bytes_eq : List ℕ → List ℕ → Bool
bytes_eq [] [] = true
bytes_eq (x ∷ xs) (y ∷ ys) = x == y && bytes_eq xs ys
bytes_eq _ _ = false

pub bytes_eq_iff : (xs ys : List ℕ) → (bytes_eq xs ys ≡ true) ↔ (xs ≡ ys)
unfolding bytes_eq
bytes_eq_iff [] [] = (λ _. refl, λ _. refl)
bytes_eq_iff [] (y ∷ ys) = ground arith
bytes_eq_iff (x ∷ xs) [] = ground arith
bytes_eq_iff (x ∷ xs) (y ∷ ys) = ground (arith, bytes_eq_iff xs ys)

-- The `k` bytes of `v`, most significant first; what does not fit is cut off.
unfoldable pub to_be_bytes : ℕ → ℕ → List ℕ
to_be_bytes zero v = []
to_be_bytes (suc k) v = to_be_bytes k (v / 256) ++ (v % 256 ∷ [])

unfoldable pub from_be_bytes : List ℕ → ℕ
from_be_bytes = foldl (λ acc b. acc * 256 + b) 0

pub length-to_be_bytes : (k v : ℕ) → length (to_be_bytes k v) ≡ k
unfolding to_be_bytes
length-to_be_bytes zero v = refl
length-to_be_bytes (suc k) v =
    omega (
      arith,
      length-to_be_bytes k (v / 256),
      length-append (to_be_bytes k (v / 256)) (v % 256 ∷ []),
    )

-- A value that fits is read back.
pub from_be_bytes-to_be_bytes : (k v : ℕ) → v < 256 ^ k → from_be_bytes (to_be_bytes k v) ≡ v
unfolding from_be_bytes to_be_bytes
from_be_bytes-to_be_bytes zero v h = omega arith
from_be_bytes-to_be_bytes (suc k) v h =
    rw (foldl-append (λ acc b. acc * 256 + b) 0 (to_be_bytes k (v / 256)) (v % 256 ∷ []))
      (omega (arith, from_be_bytes-to_be_bytes k (v / 256) (omega (arith, pow-suc 256 k))))

pub to_be_bytes_inj :
    (k : ℕ) {v w : ℕ} → v < 256 ^ k → w < 256 ^ k → to_be_bytes k v ≡ to_be_bytes k w → v ≡ w
to_be_bytes_inj k {v} {w} hv hw e =
    sym (from_be_bytes-to_be_bytes k v hv) ∙ ap from_be_bytes e ∙ from_be_bytes-to_be_bytes k w hw

abbrev pub IsByte : ℕ → Type 0
IsByte b = b < 256

to_be_bytes_step :
    (k acc b : ℕ) → IsByte b → to_be_bytes (suc k) (acc * 256 + b) ≡ to_be_bytes k acc ++ (b ∷ [])
unfolding to_be_bytes
to_be_bytes_step k acc b h =
    let quotient : (acc * 256 + b) / 256 ≡ acc = omega arith in
    let digit : (acc * 256 + b) % 256 ≡ b = omega arith in rw (quotient, digit)

to_be_bytes-foldl :
    (k acc : ℕ) (xs : List ℕ)
    → All IsByte xs
    → to_be_bytes (k + length xs) (foldl (λ a b. a * 256 + b) acc xs) ≡ to_be_bytes k acc ++ xs
to_be_bytes-foldl k acc [] h = rw (add-zero, append-nil)
to_be_bytes-foldl k acc (x ∷ xs) h =
    rw (add-suc, ← suc-add)
      (to_be_bytes-foldl (suc k) (acc * 256 + x) xs h.1
        ∙ rw (to_be_bytes_step k acc x h.0, append_assoc))

-- Every byte string is the encoding of the number that it is read as.
pub to_be_bytes-from_be_bytes :
    (xs : List ℕ) → All IsByte xs → to_be_bytes (length xs) (from_be_bytes xs) ≡ xs
unfolding from_be_bytes
to_be_bytes-from_be_bytes xs h =
    rw (← zero-add (length xs)) (to_be_bytes-foldl 0 0 xs h ∙ unfold to_be_bytes in refl)

pub from_be_bytes-lt : (xs : List ℕ) → All IsByte xs → from_be_bytes xs < 256 ^ length xs
unfolding from_be_bytes
from_be_bytes-lt xs h = rw zero-add at (foldl-lt 0 0 xs (omega arith) h)
  where
    foldl-lt :
        (k acc : ℕ) (xs : List ℕ)
        → acc < 256 ^ k
        → All IsByte xs
        → foldl (λ a b. a * 256 + b) acc xs < 256 ^ (k + length xs)
    foldl-lt k acc [] h t = rw add-zero h
    foldl-lt k acc (x ∷ xs) h t =
        rw (add-suc, ← suc-add)
          (foldl-lt (suc k) (acc * 256 + x) xs (rw (pow-suc 256 k) (omega (arith, t.0))) t.1)

pub to_be_bytes-IsByte : (k v : ℕ) → All IsByte (to_be_bytes k v)
unfolding to_be_bytes
to_be_bytes-IsByte zero v = tt
to_be_bytes-IsByte (suc k) v =
    All-append IsByte (to_be_bytes k (v / 256)) (v % 256 ∷ []) (to_be_bytes-IsByte k (v / 256))
      (omega arith, tt)

unfoldable pub starts_with : List ℕ → List ℕ → Bool
starts_with xs [] = true
starts_with [] (p ∷ ps) = false
starts_with (x ∷ xs) (p ∷ ps) = x == p && starts_with xs ps

-- The text behind a prefix.
pub starts_with-true :
    (xs ps : List ℕ) → starts_with xs ps ≡ true → (rest : List ℕ) × (xs ≡ ps ++ rest)
unfolding starts_with
starts_with-true xs [] h = (xs, refl)
starts_with-true [] (p ∷ ps) h = cc
starts_with-true (x ∷ xs) (p ∷ ps) h =
    let (rest, e) = starts_with-true xs ps (ground arith) in (rest, ground arith)

-- A `u64` in front of other bytes.
pub u64_inj :
    {v w : ℕ} {us vs : List ℕ}
    → v < 2 ^ 64
    → w < 2 ^ 64
    → to_be_bytes 8 v ++ us ≡ to_be_bytes 8 w ++ vs
    → (v ≡ w) × (us ≡ vs)
u64_inj {v} {w} hv hw e =
    let (field, more) =
      append_inj (to_be_bytes 8 v) (to_be_bytes 8 w)
        (length-to_be_bytes 8 v ∙ sym (length-to_be_bytes 8 w)) e in
    (to_be_bytes_inj 8 hv hw field, more)
