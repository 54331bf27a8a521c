-- ===== src/Core/Signing/Tss.antt =====
-- crates/keymesh-core/src/signing/tss.rs: identifiers of the threshold signing layer, and the status
-- of a signing session.
--
-- The checks over `chars()` run over bytes: the characters that they admit are ASCII, and a character
-- that is not has no admitted byte.
pub mod Identifiers
pub mod Splitting
pub mod Sessions
use key_mesh.Prelude.{
  ℕ, ◌+◌, ◌%◌, Bool, true, false, not, ◌&&◌, ◌||◌, List, [], ◌∷◌, ◌++◌, map, leb, ltb, ◌==◌,
  if◌then◌else◌, length, drop,
}
use key_mesh.Prelude.Bytes.{starts_with}
use key_mesh.Prelude.Text.{Str, text}
use key_mesh.Prelude.Outcome.{Result, ok, err}
use key_mesh.Core.Errors.{KeymeshError, invalid_input, invalid_state_transition}

abbrev pub ParticipantId : Type 0
ParticipantId = Str

abbrev pub SigningProtocolVersion : Type 0
SigningProtocolVersion = Str

abbrev pub SessionId : Type 0
SessionId = Str

pub data SigningSessionStatus : Type 0 where
  started aborted failed completed : SigningSessionStatus

abbrev pub all_of : (ℕ → Bool) → Str → Bool
all_of p [] = true
all_of p (c ∷ cs) = p c && all_of p cs

-- The ranges of `u8::is_ascii_digit` and its like.
abbrev within : ℕ → ℕ → ℕ → Bool
within lo hi c = leb lo c && leb c hi

unfoldable pub is_ascii_hexdigit : ℕ → Bool
is_ascii_hexdigit c = within b'0' b'9' c || (within b'a' b'f' c || within b'A' b'F' c)

unfoldable pub is_ascii_alphanumeric : ℕ → Bool
is_ascii_alphanumeric c = within b'0' b'9' c || (within b'a' b'z' c || within b'A' b'Z' c)

unfoldable pub to_ascii_lowercase : ℕ → ℕ
to_ascii_lowercase c = if within b'A' b'Z' c then c + 32 else c

abbrev pub hex_prefix : Str
hex_prefix = b'0' ∷ b'x' ∷ []

unfoldable pub is_valid_participant_id : Str → Bool
is_valid_participant_id value =
    let hex = drop 2 value in
    if not (starts_with value hex_prefix)
    then false
    else if ltb (length hex) 40 || (ltb 64 (length hex) || not (length hex % 2 == 0))
    then false
    else all_of is_ascii_hexdigit hex

unfoldable pub new_participant_id : Str → Result ParticipantId KeymeshError
new_participant_id fingerprint =
    if not (is_valid_participant_id fingerprint)
    then err (invalid_input (text "ParticipantId must be 0x hex 20-32 bytes"))
    else ok (map to_ascii_lowercase fingerprint)

-- `value.split(c)`: the parts between the separators, one more than there are of those.
cons_first : ℕ → List Str → List Str
cons_first c [] = (c ∷ []) ∷ []
cons_first c (part ∷ parts) = (c ∷ part) ∷ parts

unfoldable pub split : ℕ → Str → List Str
unfolding cons_first
split sep [] = [] ∷ []
split sep (c ∷ cs) = let parts = split sep cs in if c == sep then [] ∷ parts else cons_first c parts

-- `parts.len() != 2 || parts[0].is_empty() || parts[1].is_empty()`, negated.
two_parts : List Str → Bool
two_parts (a ∷ b ∷ []) = not (length a == 0) && not (length b == 0)
two_parts _ = false

unfoldable pub is_version_char : ℕ → Bool
unfolding is_ascii_alphanumeric
is_version_char c =
    is_ascii_alphanumeric c || (c == b'.' || (c == b'_' || (c == b'-' || c == b'/')))

unfoldable pub is_valid_signing_protocol_version : Str → Bool
unfolding two_parts is_version_char
is_valid_signing_protocol_version value =
    if length value == 0 || ltb 64 (length value)
    then false
    else if not (two_parts (split b'/' value))
    then false
    else all_of is_version_char value

unfoldable pub is_valid_session_id : Str → Bool
is_valid_session_id value =
    if not (starts_with value hex_prefix) || not (length value == 66)
    then false
    else all_of is_ascii_hexdigit (drop 2 value)

pub record SigningSession : Type 0 where
  pub session_id : SessionId
  pub wallet : Str
  pub digest : Str
  pub nonce : ℕ
  pub policy_version : ℕ
  pub protocol_version : SigningProtocolVersion
  pub participants : List ParticipantId
  pub threshold : ℕ
  pub status : SigningSessionStatus

-- `{:?}`.
debug_status : SigningSessionStatus → Str
debug_status started = text "Started"
debug_status aborted = text "Aborted"
debug_status failed = text "Failed"
debug_status completed = text "Completed"

abbrev is_started : SigningSessionStatus → Bool
is_started started = true
is_started _ = false

-- `transition` takes the session itself, so on an error no session is left.
unfoldable pub transition :
    SigningSession → SigningSessionStatus → Result SigningSession KeymeshError
unfolding debug_status
transition s next =
    if not (is_started s.status)
    then err (invalid_state_transition (debug_status s.status) (debug_status next))
    else if is_started next
    then err (invalid_input (text "cannot transition back to Started"))
    else ok (record s { status = next })
