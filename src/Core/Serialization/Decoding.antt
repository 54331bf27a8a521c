-- ===== src/Core/Serialization/Decoding.antt =====
-- The decoder of crates/keymesh-core/src/serialization/mod.rs: where a read leaves it, and what a
-- read returns, in terms of the bytes that are left.
use key_mesh.Prelude.{
  ℕ, ◌^◌, ◌≤◌, ◌<◌, ◌≡◌, sym, ap, ◌∙◌, List, [], ◌∷◌, ◌++◌, length, take, drop, length-drop,
  take-append, drop-append, drop-drop, length-append, arith, ltb, false, get_or-drop,
  take-append-drop, length-take, All, All-take, All-drop,
}
use key_mesh.Prelude.Bytes.{
  to_be_bytes, from_be_bytes, length-to_be_bytes, from_be_bytes-to_be_bytes, IsByte,
  to_be_bytes-from_be_bytes, from_be_bytes-lt,
}
use key_mesh.Prelude.Outcome.{Result, ok, err}
use key_mesh.Core.Errors.{KeymeshError}
use key_mesh.Core.Serialization.{
  resume, Decoder, remaining, slice, advance, read_u8, read_u32, read_u64, take_declared,
  read_bytes,
}

-- The bytes that are not read yet.
abbrev pub rest : Decoder → List ℕ
rest d = drop d.pos d.buf

pub remaining-length : (d : Decoder) → remaining d ≡ length (rest d)
unfolding remaining
remaining-length d = sym (length-drop d.pos d.buf)

-- The cursor is inside the buffer.
abbrev pub IsPlaced : Decoder → Type 0
IsPlaced d = d.pos ≤ length d.buf

-- A decoder that a read left: the buffer is the same, and the cursor went no way back.
pub record Follows (d e : Decoder) : Type 0 where
  pub same_buf : e.buf ≡ d.buf
  pub forward : d.pos ≤ e.pos
  pub placed : e.pos ≤ length e.buf

module _ (d : Decoder) (h : IsPlaced d) where
  read_u8-Follows : Follows d (read_u8 d).1
  unfolding read_u8 remaining
  read_u8-Follows = ground arith

  read_u32-Follows : Follows d (read_u32 d).1
  unfolding read_u32 remaining
  read_u32-Follows = ground arith

  read_u64-Follows : Follows d (read_u64 d).1
  unfolding read_u64 remaining
  read_u64-Follows = ground arith

  take_declared-Follows : (len : ℕ) → Follows d (take_declared len d).1
  unfolding take_declared remaining
  take_declared-Follows len = ground arith

Follows-trans : {d e f : Decoder} → Follows d e → Follows e f → Follows d f
Follows-trans s t = record {
  same_buf = t.same_buf ∙ s.same_buf;
  forward = omega arith;
  placed = t.placed;
}

resumed :
    (d : Decoder) (r : Result ℕ KeymeshError × Decoder)
    → Follows d r.1
    → ((len : ℕ) → Follows r.1 (take_declared len r.1).1)
    → Follows d (resume r take_declared).1
resumed d (ok len, e) s t = Follows-trans s (t len)
resumed d (err x, e) s t = s

-- Whatever the bytes, a read from inside the buffer leaves the buffer as it is and the cursor inside
-- it, no further back, also when it fails.
pub reads-Follows :
    (d : Decoder)
    → IsPlaced d
    → Follows d (read_u8 d).1
      × Follows d (read_u32 d).1
      × Follows d (read_u64 d).1
      × Follows d (read_bytes d).1
unfolding read_bytes
reads-Follows d h =
    let after = read_u32-Follows d h in
    (
      read_u8-Follows d h,
      after,
      read_u64-Follows d h,
      resumed d (read_u32 d) after (take_declared-Follows (read_u32 d).1 after.placed),
    )

-- The bytes that a read takes when the next bytes are known.
module _ (d : Decoder) (front tail : List ℕ) (at_front : rest d ≡ front ++ tail) where
  slice-front : slice (length front) d ≡ front
  slice-front = ap (take (length front)) at_front ∙ take-append front tail

  pub rest-advance : rest (advance (length front) d) ≡ tail
  rest-advance =
      sym (drop-drop d.pos (length front) d.buf)
      ∙ ap (drop (length front)) at_front
      ∙ drop-append front tail

  front-fits : ltb (remaining d) (length front) ≡ false
  front-fits = ground (arith, remaining-length d, ap length at_front, length-append front tail)

-- A read on the encoding of its value returns the value and goes past it.
pub read_u8-front :
    (d : Decoder) (v : ℕ) (tail : List ℕ) → rest d ≡ v ∷ tail → read_u8 d ≡ (ok v, advance 1 d)
unfolding read_u8
read_u8-front d v tail e = rw (front-fits d (v ∷ []) tail e, get_or-drop d.buf d.pos 0, e)

pub read_u64-to_be_bytes :
    (d : Decoder) (v : ℕ) (tail : List ℕ)
    → v < 2 ^ 64
    → rest d ≡ to_be_bytes 8 v ++ tail
    → read_u64 d ≡ (ok v, advance 8 d)
unfolding read_u64
read_u64-to_be_bytes d v tail h e =
    let width = length-to_be_bytes 8 v in
    let fits = rw width at (front-fits d (to_be_bytes 8 v) tail e) in
    let part = rw width at (slice-front d (to_be_bytes 8 v) tail e) in
    rw (fits, part, from_be_bytes-to_be_bytes 8 v h)

pub read_u32-to_be_bytes :
    (d : Decoder) (v : ℕ) (tail : List ℕ)
    → v < 2 ^ 32
    → rest d ≡ to_be_bytes 4 v ++ tail
    → read_u32 d ≡ (ok v, advance 4 d)
unfolding read_u32
read_u32-to_be_bytes d v tail h e =
    let width = length-to_be_bytes 4 v in
    let fits = rw width at (front-fits d (to_be_bytes 4 v) tail e) in
    let part = rw width at (slice-front d (to_be_bytes 4 v) tail e) in
    rw (fits, part, from_be_bytes-to_be_bytes 4 v h)

take_declared-front :
    (d : Decoder) (bytes tail : List ℕ)
    → rest d ≡ bytes ++ tail
    → take_declared (length bytes) d ≡ (ok bytes, advance (length bytes) d)
unfolding take_declared
take_declared-front d bytes tail e = rw (front-fits d bytes tail e, slice-front d bytes tail e)

pub rest-advance_width :
    (k v : ℕ) (d : Decoder) (tail : List ℕ)
    → rest d ≡ to_be_bytes k v ++ tail
    → rest (advance k d) ≡ tail
rest-advance_width k v d tail e =
    rw (length-to_be_bytes k v) at (rest-advance d (to_be_bytes k v) tail e)

pub read_bytes-front :
    (d : Decoder) (bytes tail : List ℕ)
    → length bytes < 2 ^ 32
    → rest d ≡ to_be_bytes 4 (length bytes) ++ (bytes ++ tail)
    → read_bytes d ≡ (ok bytes, advance (length bytes) (advance 4 d))
unfolding read_bytes
read_bytes-front d bytes tail h e = rw (read_u32-to_be_bytes d (length bytes) (bytes ++ tail) h e) (
    take_declared-front (advance 4 d) bytes tail
      (rest-advance_width 4 (length bytes) d (bytes ++ tail) e))

-- What a read that succeeds took off the buffer.
module _ (n : ℕ) (d : Decoder) (enough : ltb (remaining d) n ≡ false) where
  pub slice-length : length (slice n d) ≡ n
  slice-length = length-take n (rest d) (ground (arith, remaining-length d))

  pub slice-rest : rest d ≡ slice n d ++ rest (advance n d)
  slice-rest = sym (take-append-drop n (rest d)) ∙ ap (◌++◌ (slice n d)) (drop-drop d.pos n d.buf)

  pub slice-to_be_bytes :
      All IsByte d.buf
      → (rest d ≡ to_be_bytes n (from_be_bytes (slice n d)) ++ rest (advance n d))
        × (from_be_bytes (slice n d) < 256 ^ n)
  slice-to_be_bytes bytes =
      let part = All-take IsByte n (rest d) (All-drop IsByte d.pos d.buf bytes) in
      (
        slice-rest
            ∙ ap (λ xs. xs ++ rest (advance n d))
                (sym (rw slice-length at (to_be_bytes-from_be_bytes (slice n d) part))),
        rw slice-length at (from_be_bytes-lt (slice n d) part),
      )
