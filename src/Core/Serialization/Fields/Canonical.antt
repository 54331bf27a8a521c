-- ===== src/Core/Serialization/Fields/Canonical.antt =====
-- Encoding what was decoded, for the encoder and the decoder of
-- crates/keymesh-core/src/serialization/mod.rs.
use key_mesh.Prelude.{
  ℕ, ◌≡◌, refl, sym, ap, ◌∙◌, List, [], ◌∷◌, ◌++◌, map, length, All, All-drop, arith, append-nil,
}
use key_mesh.Prelude.Bytes.{IsByte}
use key_mesh.Prelude.Outcome.{Result, ok, err}
use key_mesh.Core.Errors.{KeymeshError}
use key_mesh.Core.Serialization.{
  Decoder, new_decoder, Read, ◌>>=◌, finish, read_u8, read_u64, read_bytes,
}
use key_mesh.Core.Serialization.Decoding.{rest, remaining-length}
use key_mesh.Core.Serialization.Taking.{Took, Took-trans, read_u8-ok, read_u64-ok, read_bytes-ok}
use key_mesh.Core.Serialization.Fields.{
  Field, u8, u64, blob, Kind, u8_kind, u64_kind, blob_kind, kind_of, Fits, read_field, read_fields,
  finished, encode_fields, decode_fields, image, images,
}
use key_mesh.Core.Serialization.Fields.RoundTrip.{encode_fields-images}

finish-ok : (d : Decoder) → finish d ≡ ok tt → rest d ≡ []
unfolding finish
finish-ok d h = empty (rest d) (ground (arith, remaining-length d))
  where
    empty : (xs : List ℕ) → length xs ≡ 0 → xs ≡ []
    empty [] e = refl
    empty (x ∷ xs) e = absurd (omega arith)

-- Inversion of a read, then of a chain of two.
wrapped-ok :
    {A B : Type 0} (m : Read A) (c : A → B) (d e : Decoder) (b : B)
    → (m >>= (λ a d'. (ok (c a), d'))) d ≡ (ok b, e)
    → (a : A) × (m d ≡ (ok a, e)) × (c a ≡ b)
wrapped-ok {A} {B} m c d e b h = go (m d) refl
  where
    go : (r : Result A KeymeshError × Decoder) → m d ≡ r → (a : A) × (m d ≡ (ok a, e)) × (c a ≡ b)
    go (err x, e') p = cc (rw p at h)
    go (ok a, e') p = let there : e' ≡ e = cc (rw p at h) in (a, p ∙ cc there, cc (rw p at h))

bound-ok :
    {A B : Type 0} (m : Read A) (k : A → Read B) (d e : Decoder) (b : B)
    → (m >>= k) d ≡ (ok b, e)
    → (a : A) × (f : Decoder) × (m d ≡ (ok a, f)) × (k a f ≡ (ok b, e))
bound-ok {A} {B} m k d e b h = go (m d) refl
  where
    go :
        (r : Result A KeymeshError × Decoder)
        → m d ≡ r
        → (a : A) × (f : Decoder) × (m d ≡ (ok a, f)) × (k a f ≡ (ok b, e))
    go (err x, f) p = cc (rw p at h)
    go (ok a, f) p = (a, f, p, rw p at h)

-- The field that a read returns is what it took.
read_field-ok :
    (k : Kind) (d e : Decoder) (f : Field)
    → All IsByte d.buf
    → read_field k d ≡ (ok f, e)
    → Took d (image f) e × (kind_of f ≡ k) × Fits f
unfolding read_field
read_field-ok u8_kind d e f bytes h =
    let (v, read, value) = wrapped-ok read_u8 u8 d e f h in
    let t = read_u8-ok d e bytes v read in
    rw (← value) (t, refl, (rw t.taken at (All-drop IsByte d.pos d.buf bytes)).0)
read_field-ok u64_kind d e f bytes h =
    let (v, read, value) = wrapped-ok read_u64 u64 d e f h in
    let (t, fits) = read_u64-ok d e bytes v read in rw (← value) (t, refl, fits)
read_field-ok blob_kind d e f bytes h =
    let (v, read, value) = wrapped-ok read_bytes blob d e f h in
    let (t, fits) = read_bytes-ok d e v bytes read in rw (← value) (t, refl, fits)

read_fields-ok :
    (ks : List Kind) (d e : Decoder) (fs : List Field)
    → All IsByte d.buf
    → read_fields ks d ≡ (ok fs, e)
    → Took d (images fs) e × (map kind_of fs ≡ ks) × All Fits fs
unfolding read_fields
read_fields-ok [] d e fs bytes h =
    let nothing : [] ≡ fs = cc in
    let there : d ≡ e = cc in
    rw (← nothing, ← there) (record { same_buf = refl; taken = refl }, refl, tt)
read_fields-ok (k ∷ ks) d e fs bytes h =
    let (f, d', first, more) =
      bound-ok (read_field k) (λ f. read_fields ks >>= λ fs d. (ok (f ∷ fs), d)) d e fs h in
    let (fs', others, value) = wrapped-ok (read_fields ks) (◌∷◌ f) d' e fs more in
    let (t, kind, fits) = read_field-ok k d d' f bytes first in
    let (t', kinds, fit') = read_fields-ok ks d' e fs' (rw t.same_buf bytes) others in
    rw (← value) (Took-trans t t', cc, (fits, fit'))

-- A byte string that decodes is the encoding of what it decodes to: there is one encoding of each
-- sequence of fields, and no other byte string is accepted.
pub encode_fields-decode_fields :
    (ks : List Kind) (bytes : List ℕ) (fs : List Field)
    → All IsByte bytes
    → decode_fields ks bytes ≡ ok fs
    → (encode_fields fs ≡ bytes) × (map kind_of fs ≡ ks) × All Fits fs
unfolding decode_fields new_decoder
encode_fields-decode_fields ks bytes fs h p = go (read_fields ks (new_decoder bytes)) refl
  where
    start : Decoder
    start = new_decoder bytes

    whole :
        (fs' : List Field) (e : Decoder)
        → read_fields ks start ≡ (ok fs', e)
        → (r : Result (Unit {0}) KeymeshError) → finish e ≡ r
        → (encode_fields fs ≡ bytes) × (map kind_of fs ≡ ks) × All Fits fs
    whole fs' e q (err m) over = cc (rw (q, finished, over) at p)
    whole fs' e q (ok _) over =
        let (t, kinds, fits) = read_fields-ok ks start e fs' h q in
        let same : fs' ≡ fs = cc (rw (q, finished, over) at p) in
        rw (← same) (
          encode_fields-images fs' fits
              ∙ sym (t.taken ∙ ap (◌++◌ (images fs')) (finish-ok e over) ∙ append-nil (images fs')),
          kinds,
          fits,
        )

    go :
        (r : Result (List Field) KeymeshError × Decoder)
        → read_fields ks start ≡ r
        → (encode_fields fs ≡ bytes) × (map kind_of fs ≡ ks) × All Fits fs
    go (err m, e) q = cc (rw (q, finished) at p)
    go (ok fs', e) q = whole fs' e q (finish e) refl
