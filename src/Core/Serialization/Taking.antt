-- ===== src/Core/Serialization/Taking.antt =====
-- The decoder of crates/keymesh-core/src/serialization/mod.rs, from its results: a read that
-- succeeds took exactly the encoding of its value off the buffer.
use mathlib.Core.Path.{ap₂}
use key_mesh.Prelude.{
  ℕ, ◌^◌, ◌<◌, ◌≡◌, refl, sym, ap, ◌∙◌, List, [], ◌∷◌, ◌++◌, length, drop, drop-drop, ◌≤◌, All,
  arith, inl, inr, Bool-cases, ltb, if◌then◌else◌, append_assoc, get_or, get_or-drop,
}
use key_mesh.Prelude.Bytes.{to_be_bytes, from_be_bytes, IsByte}
use key_mesh.Prelude.Outcome.{Result, ok, err}
use key_mesh.Core.Errors.{KeymeshError}
use key_mesh.Core.Serialization.{
  Decoder, remaining, slice, advance, read_u8, read_u32, read_u64, take_declared, read_bytes,
}
use key_mesh.Core.Serialization.Decoding.{
  rest, remaining-length, slice-length, slice-rest, slice-to_be_bytes,
}

pub record Took (d : Decoder) (bytes : List ℕ) (e : Decoder) : Type 0 where
  pub same_buf : e.buf ≡ d.buf
  pub taken : rest d ≡ bytes ++ rest e

pub Took-trans :
    {d e f : Decoder} {xs ys : List ℕ} → Took d xs e → Took e ys f → Took d (xs ++ ys) f
Took-trans {d} {e} {f} {xs} {ys} s t = record {
  same_buf = t.same_buf ∙ s.same_buf;
  taken = s.taken ∙ ap (◌++◌ xs) t.taken ∙ sym (append_assoc xs ys (rest f));
}

-- The shape that `read_u32` and `read_u64` share.
number-ok :
    (n v : ℕ) (msg : KeymeshError) (d e : Decoder)
    → All IsByte d.buf
    → ◌≡◌ {A = Result ℕ KeymeshError × Decoder}
        (if ltb (remaining d) n
          then (err msg, d)
          else (ok (from_be_bytes (slice n d)), advance n d))
        (ok v, e)
    → Took d (to_be_bytes n v) e × (v < 256 ^ n)
number-ok n v msg d e bytes h = elim (Bool-cases (ltb (remaining d) n)) [
  | inl short ↦ cc (rw short at h)
  | inr enough ↦
      let value : from_be_bytes (slice n d) ≡ v = ground arith in
      let there : advance n d ≡ e = ground arith in
      let (taken, fits) = slice-to_be_bytes n d enough bytes in
      rw (← there, ← value) (record { same_buf = refl; taken = taken }, fits)
]

first_byte : (xs : List ℕ) → 1 ≤ length xs → xs ≡ get_or xs 0 0 ∷ drop 1 xs
first_byte [] h = absurd (omega arith)
first_byte (x ∷ xs) h = refl

module _ (d e : Decoder) (bytes : All IsByte d.buf) where
  pub read_u64-ok : (v : ℕ) → read_u64 d ≡ (ok v, e) → Took d (to_be_bytes 8 v) e × (v < 2 ^ 64)
  unfolding read_u64
  read_u64-ok v h = number-ok 8 v _ d e bytes h

  pub read_u32-ok : (v : ℕ) → read_u32 d ≡ (ok v, e) → Took d (to_be_bytes 4 v) e × (v < 2 ^ 32)
  unfolding read_u32
  read_u32-ok v h = number-ok 4 v _ d e bytes h

  pub read_u8-ok : (v : ℕ) → read_u8 d ≡ (ok v, e) → Took d (v ∷ []) e
  unfolding read_u8
  read_u8-ok v h = elim (Bool-cases (ltb (remaining d) 1)) [
    | inl short ↦ cc (rw short at h)
    | inr enough ↦
        let value : get_or d.buf d.pos 0 ≡ v = ground arith in
        let there : advance 1 d ≡ e = ground arith in
        let nonempty : 1 ≤ length (rest d) = ground (arith, remaining-length d) in
        rw (← there, ← value)
          (record {
            same_buf = refl;
            taken =
                first_byte (rest d) nonempty
                ∙ ap₂ ◌∷◌ (sym (get_or-drop d.buf d.pos 0)) (drop-drop d.pos 1 d.buf);
          })
  ]

take_declared-ok :
    (len : ℕ) (value : List ℕ) (d e : Decoder)
    → take_declared len d ≡ (ok value, e)
    → Took d value e × (length value ≡ len)
unfolding take_declared
take_declared-ok len value d e h = elim (Bool-cases (ltb (remaining d) len)) [
  | inl short ↦ cc (rw short at h)
  | inr enough ↦
      let part : slice len d ≡ value = ground arith in
      let there : advance len d ≡ e = ground arith in
      rw (← there, ← part)
        (record { same_buf = refl; taken = slice-rest len d enough }, slice-length len d enough)
]

pub read_bytes-ok :
    (d e : Decoder) (value : List ℕ)
    → All IsByte d.buf
    → read_bytes d ≡ (ok value, e)
    → Took d (to_be_bytes 4 (length value) ++ value) e × (length value < 2 ^ 32)
unfolding read_bytes
read_bytes-ok d e value bytes h = go (read_u32 d) refl
  where
    go :
        (r : Result ℕ KeymeshError × Decoder)
        → read_u32 d ≡ r
        → Took d (to_be_bytes 4 (length value) ++ value) e × (length value < 2 ^ 32)
    go (ok len, f) p =
        let (prefix, fits) = read_u32-ok d f bytes len p in
        let (body, exact) = take_declared-ok len value f e (rw (p, read_bytes) at h) in
        rw exact (Took-trans prefix body, fits)
    go (err m, f) p = cc (rw (p, read_bytes) at h)
