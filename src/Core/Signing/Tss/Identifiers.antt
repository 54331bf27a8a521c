-- ===== src/Core/Signing/Tss/Identifiers.antt =====
-- What the identifier checks of crates/keymesh-core/src/signing/tss.rs admit.
use key_mesh.Prelude.{ℕ, suc, ◌%◌, ◌≤◌, ◌≡◌, ◌↔◌, refl, ap, true, [], ◌∷◌, ◌++◌, map, length, arith}
use key_mesh.Prelude.Bytes.{starts_with, starts_with-true}
use key_mesh.Prelude.Text.{Str}
use key_mesh.Prelude.Outcome.{ok}
use key_mesh.Core.Signing.Tss.{
  all_of, is_ascii_hexdigit, to_ascii_lowercase, hex_prefix, is_valid_participant_id,
  new_participant_id,
}

lowercase-hexdigit :
    (c : ℕ) → is_ascii_hexdigit c ≡ true → is_ascii_hexdigit (to_ascii_lowercase c) ≡ true
unfolding is_ascii_hexdigit to_ascii_lowercase
lowercase-hexdigit c h = ground arith

lowercase_idem : (c : ℕ) → to_ascii_lowercase (to_ascii_lowercase c) ≡ to_ascii_lowercase c
unfolding to_ascii_lowercase
lowercase_idem c = ground arith

all_of-lowercase :
    (hex : Str)
    → all_of is_ascii_hexdigit hex ≡ true
    → all_of is_ascii_hexdigit (map to_ascii_lowercase hex) ≡ true
all_of-lowercase [] h = refl
all_of-lowercase (c ∷ hex) h = ground (arith, lowercase-hexdigit c, all_of-lowercase hex)

length-lowercase : (hex : Str) → length (map to_ascii_lowercase hex) ≡ length hex
length-lowercase [] = refl
length-lowercase (c ∷ hex) = ap suc (length-lowercase hex)

map-lowercase_idem :
    (s : Str) → map to_ascii_lowercase (map to_ascii_lowercase s) ≡ map to_ascii_lowercase s
map-lowercase_idem [] = refl
map-lowercase_idem (c ∷ s) = cc (lowercase_idem c, map-lowercase_idem s)

-- 0x and an even number of hexadecimal digits, from 40 to 64.
abbrev pub IsHexId : Str → Type 0
IsHexId s =
    (hex : Str) × (s ≡ hex_prefix ++ hex)
    × (40 ≤ length hex)
    × (length hex ≤ 64)
    × (length hex % 2 ≡ 0)
    × (all_of is_ascii_hexdigit hex ≡ true)

lowercase-IsHexId : (s : Str) → IsHexId s → IsHexId (map to_ascii_lowercase s)
unfolding to_ascii_lowercase
lowercase-IsHexId s (hex, e, low, high, even, digits) =
    let same = length-lowercase hex in
    (
      map to_ascii_lowercase hex,
      ap (map to_ascii_lowercase) e,
      rw same low,
      rw same high,
      rw same even,
      all_of-lowercase hex digits,
    )

-- `is_valid_participant_id` admits exactly these.
pub participant_id_iff : (s : Str) → (is_valid_participant_id s ≡ true) ↔ IsHexId s
unfolding is_valid_participant_id starts_with
participant_id_iff s = (
  λ h.
      let (hex, e) = starts_with-true s hex_prefix (ground arith) in
      let h' = rw e at h in (hex, e, ground arith, ground arith, ground arith, ground arith),
  λ r. let (hex, e, low, high, even, digits) = r in rw e (ground arith),
)

-- `ParticipantId::new` admits the same texts, and its result is a normal form: it is admitted again,
-- and comes back unchanged.
pub new_participant_id_normal :
    (s p : Str)
    → new_participant_id s ≡ ok p
    → IsHexId s × IsHexId p × (new_participant_id p ≡ ok p)
unfolding new_participant_id
new_participant_id_normal s p h =
    let valid : is_valid_participant_id s ≡ true = ground arith in
    let value : map to_ascii_lowercase s ≡ p = ground arith in
    let shape = (participant_id_iff s).0 valid in
    let shape' = lowercase-IsHexId s shape in
    rw (← value) (
      shape,
      shape',
      rw ((participant_id_iff (map to_ascii_lowercase s)).1 shape') (ap ok (map-lowercase_idem s)),
    )
