-- ===== src/Core/Serialization/Fields/RoundTrip.antt =====
-- Decoding what was encoded, for the encoder and the decoder of
-- crates/keymesh-core/src/serialization/mod.rs.
use key_mesh.Prelude.{
  ℕ, ◌%◌, ◌^◌, ◌≡◌, refl, sym, ◌∙◌, List, [], ◌∷◌, ◌++◌, map, length, All, arith, append_assoc,
  append-nil,
}
use key_mesh.Prelude.Bytes.{to_be_bytes}
use key_mesh.Prelude.Outcome.{ok}
use key_mesh.Core.Serialization.{
  Encoder, new_encoder, into_bytes, write_u8, write_u64, write_bytes, Decoder, new_decoder, advance,
  finish,
}
use key_mesh.Core.Serialization.Decoding.{
  rest, remaining-length, rest-advance, rest-advance_width, read_u8-front, read_u64-to_be_bytes,
  read_bytes-front,
}
use key_mesh.Core.Serialization.Fields.{
  Field, u8, u64, blob, kind_of, Fits, write_field, write_fields, read_field, read_fields, finished,
  encode_fields, decode_fields, image, images,
}

write_field-image :
    (f : Field) (enc : Encoder) → Fits f → (write_field f enc).buf ≡ enc.buf ++ image f
unfolding write_field write_u8 write_u64 write_bytes
write_field-image (u8 v) enc h = refl
write_field-image (u64 v) enc h = refl
write_field-image (blob bytes) enc h =
    let small : length bytes % 2 ^ 32 ≡ length bytes = omega arith in
    rw small (append_assoc enc.buf (to_be_bytes 4 (length bytes)) bytes)

write_fields-images :
    (fs : List Field) (enc : Encoder)
    → All Fits fs
    → (write_fields fs enc).buf ≡ enc.buf ++ images fs
unfolding write_fields
write_fields-images [] enc h = sym (append-nil enc.buf)
write_fields-images (f ∷ fs) enc h =
    write_fields-images fs (write_field f enc) h.1
    ∙ rw (write_field-image f enc h.0) (append_assoc enc.buf (image f) (images fs))

pub encode_fields-images : (fs : List Field) → All Fits fs → encode_fields fs ≡ images fs
unfolding encode_fields into_bytes new_encoder
encode_fields-images fs h = write_fields-images fs new_encoder h

read_field-front :
    (f : Field) (d : Decoder) (tail : List ℕ)
    → Fits f
    → rest d ≡ image f ++ tail
    → (e : Decoder) × (read_field (kind_of f) d ≡ (ok f, e)) × (rest e ≡ tail)
unfolding read_field
read_field-front (u8 v) d tail h e =
    (advance 1 d, rw (read_u8-front d v tail e), rest-advance d (v ∷ []) tail e)
read_field-front (u64 v) d tail h e =
    (advance 8 d, rw (read_u64-to_be_bytes d v tail h e), rest-advance_width 8 v d tail e)
read_field-front (blob bytes) d tail h e =
    let split = e ∙ append_assoc (to_be_bytes 4 (length bytes)) bytes tail in
    (
      advance (length bytes) (advance 4 d),
      rw (read_bytes-front d bytes tail h split),
      rest-advance (advance 4 d) bytes tail
          (rest-advance_width 4 (length bytes) d (bytes ++ tail) split),
    )

read_fields-front :
    (fs : List Field) (d : Decoder) (tail : List ℕ)
    → All Fits fs
    → rest d ≡ images fs ++ tail
    → (e : Decoder) × (read_fields (map kind_of fs) d ≡ (ok fs, e)) × (rest e ≡ tail)
unfolding read_fields
read_fields-front [] d tail h p = (d, refl, p)
read_fields-front (f ∷ fs) d tail h p =
    let (e, first, left) =
      read_field-front f d (images fs ++ tail) h.0 (p ∙ append_assoc (image f) (images fs) tail) in
    let (e', more, left') = read_fields-front fs e tail h.1 left in (e', rw first (rw more), left')

finish-rest : (d : Decoder) → rest d ≡ [] → finish d ≡ ok tt
unfolding finish
finish-rest d h = rw (remaining-length d, h)

-- What the encoder wrote of fields that fit their types the decoder reads back, field by field and with nothing left over.
pub decode_fields-encode_fields :
    (fs : List Field) → All Fits fs → decode_fields (map kind_of fs) (encode_fields fs) ≡ ok fs
unfolding decode_fields new_decoder
decode_fields-encode_fields fs h =
    let start = new_decoder (encode_fields fs) in
    let (e, all, left) =
      read_fields-front fs start [] h (encode_fields-images fs h ∙ sym (append-nil (images fs))) in
    rw all (rw (finish-rest e left, finished))
