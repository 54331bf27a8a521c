-- ===== src/Tests/Codec.antt =====
-- crates/keymesh-core/src/serialization/mod.rs on concrete messages.
use key_mesh.Prelude.{ℕ, ◌≡◌, refl, List, [], ◌∷◌, arith}
use key_mesh.Prelude.Bytes.{from_be_bytes}
use key_mesh.Prelude.Text.{text}
use key_mesh.Prelude.Outcome.{ok, err}
use key_mesh.Core.Errors.{invalid_input}
use key_mesh.Core.Serialization.{
  Decoder, new_decoder, read_u8, read_u32, read_bytes, remaining, finish,
}
use key_mesh.Core.Serialization.Fields.{
  Field, u8, u64, blob, u8_kind, u64_kind, blob_kind, encode_fields, decode_fields, read_field,
  read_fields,
}
use key_mesh.Core.Serialization.Fields.RoundTrip.{decode_fields-encode_fields}
use key_mesh.Core.Serialization.Fields.Canonical.{encode_fields-decode_fields}

-- A byte, a number and a blob.
abbrev message : List Field
message = u8 0x07 ∷ u64 1_700_000_000_000 ∷ blob (1 ∷ 2 ∷ 3 ∷ []) ∷ []

decode_fields-encode_fields_example :
    decode_fields (u8_kind ∷ u64_kind ∷ blob_kind ∷ []) (encode_fields message) ≡ ok message
decode_fields-encode_fields_example = decode_fields-encode_fields message (omega arith)

abbrev wire : List ℕ
wire = 7 ∷ 0 ∷ 0 ∷ 0 ∷ 2 ∷ 9 ∷ 8 ∷ []

wire_decodes : decode_fields (u8_kind ∷ blob_kind ∷ []) wire ≡ ok (u8 7 ∷ blob (9 ∷ 8 ∷ []) ∷ [])
unfolding decode_fields read_fields read_field new_decoder read_u8 read_u32 read_bytes remaining
    from_be_bytes finish
wire_decodes = refl

encode_fields-decode_fields_example : encode_fields (u8 7 ∷ blob (9 ∷ 8 ∷ []) ∷ []) ≡ wire
encode_fields-decode_fields_example =
    (encode_fields-decode_fields (u8_kind ∷ blob_kind ∷ []) wire (u8 7 ∷ blob (9 ∷ 8 ∷ []) ∷ [])
      (omega arith) wire_decodes).0

-- A length prefix that promises too much is refused, and stays consumed.
oversized_length : read_bytes (new_decoder (0xff ∷ 0xff ∷ 0xff ∷ 0xff ∷ 1 ∷ 2 ∷ [])) ≡ (
  err (invalid_input (text "declared length exceeds remaining buffer")),
  record { buf = 0xff ∷ 0xff ∷ 0xff ∷ 0xff ∷ 1 ∷ 2 ∷ []; pos = 4 },
)
unfolding new_decoder read_u32 read_bytes remaining from_be_bytes
oversized_length = refl

abbrev placed : Decoder
placed = record { buf = wire; pos = 1 }
