-- ===== src/Core/Serialization/Fields.antt =====
-- Messages as sequences of fields, written by the encoder and read back by the decoder of
-- crates/keymesh-core/src/serialization/mod.rs.
pub mod RoundTrip
pub mod Canonical
use key_mesh.Prelude.{
  ℕ, ◌+◌, ◌%◌, ◌^◌, ◌<◌, ◌≡◌, refl, sym, ap, ◌∙◌, List, [], ◌∷◌, ◌++◌, map, length, All, All-drop,
  arith, inl, inr, Bool-cases, append_assoc, append-nil, ◌==◌, not, true, false,
}
use key_mesh.Prelude.Bytes.{to_be_bytes, IsByte}
use key_mesh.Prelude.Outcome.{Result, ok, err}
use key_mesh.Core.Errors.{KeymeshError}
use key_mesh.Core.Serialization.{
  Encoder, new_encoder, into_bytes, write_u8, write_u64, write_bytes, Decoder, new_decoder, Read,
  advance, ◌▷◌, ◌>>=◌, finish, remaining, read_u8, read_u64, read_bytes,
}
use key_mesh.Core.Serialization.Decoding.{
  rest, remaining-length, rest-advance, rest-advance_width, read_u8-front, read_u64-to_be_bytes,
  read_bytes-front,
}
use key_mesh.Core.Serialization.Taking.{Took, Took-trans, read_u8-ok, read_u64-ok, read_bytes-ok}

pub data Field : Type 0 where
  u8 : ℕ → Field
  u64 : ℕ → Field
  blob : List ℕ → Field

pub data Kind : Type 0 where
  u8_kind u64_kind blob_kind : Kind

abbrev pub kind_of : Field → Kind
kind_of (u8 v) = u8_kind
kind_of (u64 v) = u64_kind
kind_of (blob bytes) = blob_kind

-- The field has the Rust type of its kind; a blob's length fits its prefix.
abbrev pub Fits : Field → Type 0
Fits (u8 v) = v < 256
Fits (u64 v) = v < 2 ^ 64
Fits (blob bytes) = length bytes < 2 ^ 32

unfoldable pub write_field : Field → Encoder → Encoder
write_field (u8 v) = write_u8 v
write_field (u64 v) = write_u64 v
write_field (blob bytes) = write_bytes bytes

unfoldable pub write_fields : List Field → Encoder → Encoder
unfolding write_field
write_fields [] enc = enc
write_fields (f ∷ fs) enc = write_fields fs (write_field f enc)

unfoldable pub read_field : Kind → Read Field
read_field u8_kind = do v ← read_u8; λ d. (ok (u8 v), d)
read_field u64_kind = do v ← read_u64; λ d. (ok (u64 v), d)
read_field blob_kind = do bytes ← read_bytes; λ d. (ok (blob bytes), d)

unfoldable pub read_fields : List Kind → Read (List Field)
read_fields [] = λ d. (ok [], d)
read_fields (k ∷ ks) = do f ← read_field k; fs ← read_fields ks; λ d. (ok (f ∷ fs), d)

finished : Result (List Field) KeymeshError × Decoder → Result (List Field) KeymeshError
finished (ok fs, d) = elim (finish d) [ ok _ ↦ ok fs | err e ↦ err e ]
finished (err e, d) = err e

unfoldable pub encode_fields : List Field → List ℕ
encode_fields fs = into_bytes (write_fields fs new_encoder)

-- All fields, and then nothing more.
unfoldable pub decode_fields : List Kind → List ℕ → Result (List Field) KeymeshError
unfolding finished
decode_fields ks bytes = finished (read_fields ks (new_decoder bytes))

-- The bytes of a field.
abbrev pub image : Field → List ℕ
image (u8 v) = v ∷ []
image (u64 v) = to_be_bytes 8 v
image (blob bytes) = to_be_bytes 4 (length bytes) ++ bytes

abbrev pub images : List Field → List ℕ
images [] = []
images (f ∷ fs) = image f ++ images fs
