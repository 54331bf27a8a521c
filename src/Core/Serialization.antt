-- ===== src/Core/Serialization.antt =====
-- crates/keymesh-core/src/serialization/mod.rs: the binary encoder and decoder.
--
-- A method on `&mut self` returns the new state beside its result, on errors too. A `Vec<u8>` or a
-- `&[u8]` is the list of its bytes, and `usize` is unbounded.
pub mod Decoding
pub mod Taking
pub mod Fields
pub mod Wire
use key_mesh.Prelude.{
  ℕ, suc, ◌+◌, ◌-◌, ◌/◌, ◌%◌, ◌^◌, Bool, List, [], ◌∷◌, ◌++◌, ltb, not, ◌==◌, if◌then◌else◌, length,
  take, drop, get_or,
}
use key_mesh.Prelude.Bytes.{to_be_bytes, from_be_bytes}
use key_mesh.Prelude.Text.{Str, text, decimal, hex_digit}
use key_mesh.Prelude.Outcome.{Result, ok, err}
use key_mesh.Core.Errors.{KeymeshError, invalid_input}

pub record Encoder : Type 0 where
  pub buf : List ℕ

-- A method call, with the receiver in front.
infixl 20 ◌▷◌
abbrev pub ◌▷◌ {ℓ κ} : {A : Type ℓ} {B : Type κ} → A → (A → B) → B
x ▷ f = f x

unfoldable pub new_encoder : Encoder
new_encoder = record { buf = [] }

unfoldable pub into_bytes : Encoder → List ℕ
into_bytes enc = enc.buf

unfoldable pub write_u8 : ℕ → Encoder → Encoder
write_u8 v enc = record { buf = enc.buf ++ (v ∷ []) }

unfoldable pub write_u64 : ℕ → Encoder → Encoder
write_u64 v enc = record { buf = enc.buf ++ to_be_bytes 8 v }

unfoldable pub write_raw : List ℕ → Encoder → Encoder
write_raw bytes enc = record { buf = enc.buf ++ bytes }

-- The length is cut to a `u32` by the cast.
unfoldable pub write_bytes : List ℕ → Encoder → Encoder
write_bytes bytes enc = record { buf = (enc.buf ++ to_be_bytes 4 (length bytes % 2 ^ 32)) ++ bytes }

pub record Decoder : Type 0 where
  pub buf : List ℕ
  pub pos : ℕ

unfoldable pub new_decoder : List ℕ → Decoder
new_decoder buf = record { buf = buf; pos = 0 }

unfoldable pub remaining : Decoder → ℕ
remaining d = length d.buf - d.pos

unfoldable pub finish : Decoder → Result (Unit {0}) KeymeshError
finish d =
    if not (remaining d == 0)
    then err
        (invalid_input (text "trailing bytes: " ++ (decimal (remaining d) ++ text " unconsumed")))
    else ok tt

abbrev pub Read : Type 0 → Type 0
Read A = Decoder → Result A KeymeshError × Decoder

abbrev resume :
    {A B : Type 0}
    → Result A KeymeshError × Decoder
    → (A → Read B)
    → Result B KeymeshError × Decoder
resume (ok a, d) f = f a d
resume (err e, d) f = (err e, d)

infixl 5 ◌>>=◌
abbrev pub ◌>>=◌ : {A B : Type 0} → Read A → (A → Read B) → Read B
◌>>=◌ m f d = resume (m d) f

-- `self.buf[self.pos..self.pos + n]`. This, and the index of `read_u8`, lie inside the buffer by the
-- check before them.
abbrev pub slice : ℕ → Decoder → List ℕ
slice n d = take n (drop d.pos d.buf)

abbrev pub advance : ℕ → Decoder → Decoder
advance n d = record d { pos = d.pos + n }

unfoldable pub read_u8 : Read ℕ
read_u8 d =
    if ltb (remaining d) 1
    then (err (invalid_input (text "unexpected end of buffer")), d)
    else (ok (get_or d.buf d.pos 0), advance 1 d)

unfoldable pub read_u64 : Read ℕ
read_u64 d =
    if ltb (remaining d) 8
    then (err (invalid_input (text "unexpected end of buffer reading u64")), d)
    else (ok (from_be_bytes (slice 8 d)), advance 8 d)

unfoldable pub read_u32 : Read ℕ
read_u32 d =
    if ltb (remaining d) 4
    then (err (invalid_input (text "unexpected end of buffer reading u32")), d)
    else (ok (from_be_bytes (slice 4 d)), advance 4 d)

take_declared : ℕ → Read (List ℕ)
take_declared len d =
    if ltb (remaining d) len
    then (err (invalid_input (text "declared length exceeds remaining buffer")), d)
    else (ok (slice len d), advance len d)

unfoldable pub read_bytes : Read (List ℕ)
unfolding read_u32 take_declared
read_bytes = do len ← read_u32; take_declared len

pub data WireRecoveryState : Type 0 where
  pending timelock_active completed cancelled expired : WireRecoveryState

-- `state as u8`.
unfoldable pub discriminant : WireRecoveryState → ℕ
discriminant pending = 0x01
discriminant timelock_active = 0x02
discriminant completed = 0x03
discriminant cancelled = 0x04
discriminant expired = 0x05

-- `{other:#04x}`: the prefix 0x and two digits.
hex_byte : ℕ → Str
unfolding hex_digit
hex_byte v = text "0x" ++ (hex_digit (v / 16) ∷ hex_digit (v % 16) ∷ [])

-- `TryFrom<u8>`.
unfoldable pub try_from : ℕ → Result WireRecoveryState KeymeshError
unfolding hex_byte
try_from v =
    if v == 0x01
    then ok pending
    else if v == 0x02
    then ok timelock_active
    else if v == 0x03
    then ok completed
    else if v == 0x04
    then ok cancelled
    else if v == 0x05
    then ok expired
    else err (invalid_input (text "unknown recovery state discriminant: " ++ hex_byte v))
