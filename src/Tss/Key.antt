-- ===== src/Tss/Key.antt =====
-- crates/keymesh-tss/src/lifecycle.rs: the state of a threshold key, and the calls that use no protocol.
--
-- The types of crates/keymesh-tss/src/dkg.rs and participant.rs are here too. A verifying key `K` and
-- what a participant holds `H` (signer, verifier, share, aux info) are parameters, as they come from the
-- crates k256, manul and synedrion.
use key_mesh.Prelude.{
  ℕ, ◌≡◌, ◌↔◌, Bool, true, false, not, ◌&&◌, List, ◌++◌, map, Option, none, some, ◌==◌,
  if◌then◌else◌, replicate,
}
use key_mesh.Prelude.Text.{Str, text}
use key_mesh.Prelude.Outcome.{Result, ok, err, ◌>>◌, fail_if}
use key_mesh.Tss.Errors.{TssError, lifecycle, lifecycle_locked, stale_version}

pub data TssKeyState : Type 0 where
  created active refreshing rotating retired : TssKeyState

-- `{:?}`.
unfoldable pub debug_key_state : TssKeyState → Str
debug_key_state created = text "Created"
debug_key_state active = text "Active"
debug_key_state refreshing = text "Refreshing"
debug_key_state rotating = text "Rotating"
debug_key_state retired = text "Retired"

abbrev pub is_retired : TssKeyState → Bool
is_retired retired = true
is_retired _ = false

abbrev pub can_sign : TssKeyState → Bool
can_sign active = true
can_sign _ = false

abbrev pub can_mutate : TssKeyState → Bool
can_mutate active = true
can_mutate _ = false

abbrev is_active : TssKeyState → Bool
is_active active = true
is_active _ = false

abbrev pub is_created : TssKeyState → Bool
is_created created = true
is_created _ = false

abbrev pub is_rotating : TssKeyState → Bool
is_rotating rotating = true
is_rotating _ = false

-- What a participant holds, `holding`, is of a type that only the protocols know.
pub record Participant (H : Type 0) : Type 0 where
  pub index : ℕ
  pub holding : H

pub record GroupPublicKey (K : Type 0) : Type 0 where
  pub verifying_key : K
  pub ethereum_address : List ℕ

pub record ThresholdKeyMaterial (K H : Type 0) : Type 0 where
  pub participants : List (Participant H)
  pub group_public_key : GroupPublicKey K
  pub threshold : ℕ
  pub total : ℕ

-- Keys of the crate k256, and the runs of synedrion's protocols: a refresh keeps the threshold.
pub record Protocols (K H Seed : Type 0) : Type 0 where
  pub key_eq : K → K → Bool
  pub key_eq_iff : (k k' : K) → (key_eq k k' ≡ true) ↔ (k ≡ k')
  pub encoded_point : K → (compressed : Bool) → List ℕ
  pub setup_2of3 : Seed → Result (ThresholdKeyMaterial K H) TssError
  pub refresh_via_resharing :
      Seed → ThresholdKeyMaterial K H → Result (ThresholdKeyMaterial K H) TssError
  pub rotation_via_resharing :
      Seed → ThresholdKeyMaterial K H → List Str → ℕ → Result (ThresholdKeyMaterial K H) TssError
  pub refresh_threshold :
      (seed : Seed) (m m' : ThresholdKeyMaterial K H)
      → refresh_via_resharing seed m ≡ ok m'
      → m'.threshold ≡ m.threshold

pub record KeyLifecycle (K H : Type 0) : Type 0 where
  pub state : TssKeyState
  pub material : Option (ThresholdKeyMaterial K H)
  pub participant_set_version : ℕ
  pub key_id : List ℕ
  pub group_key_bytes : Option (List ℕ)
  pub locked : Bool

unfoldable pub new_lifecycle : {K H : Type 0} → KeyLifecycle K H
new_lifecycle = record {
  state = created;
  material = none;
  participant_set_version = 0;
  key_id = replicate 32 0;
  group_key_bytes = none;
  locked = false;
}

unfoldable pub current_participant_set : {K H : Type 0} → KeyLifecycle K H → Option (List ℕ)
current_participant_set l = elim l.material [
  | none ↦ none
  | some m ↦ some (map (λ p. p.index) m.participants)
]

unfoldable pub is_stale : {K H : Type 0} → KeyLifecycle K H → ℕ → Bool
is_stale l other_version = not (l.participant_set_version == other_version)

abbrev is_none {ℓ} : {A : Type ℓ} → Option A → Bool
is_none none = true
is_none (some a) = false

unfoldable pub check_signing_allowed :
    {K H : Type 0} → KeyLifecycle K H → ℕ → Result (Unit {0}) TssError
unfolding debug_key_state is_stale
check_signing_allowed l requested_version = do
  fail_if (is_retired l.state) (TssError.retired (text "key is retired, signing forbidden"))
  fail_if (not (can_sign l.state))
      (lifecycle_locked (text "signing not allowed in state " ++ debug_key_state l.state))
  fail_if (is_stale l requested_version) (stale_version l.participant_set_version requested_version)
  fail_if (is_none l.material) (lifecycle (text "no active material"))
  ok tt

unfoldable pub retire :
    {K H : Type 0} → KeyLifecycle K H → Result (Unit {0}) TssError × KeyLifecycle K H
unfolding debug_key_state
retire l =
    if is_retired l.state
    then (err (lifecycle (text "already retired")), l)
    else if l.locked
    then (err (lifecycle_locked (text "lifecycle locked")), l)
    else if not (can_mutate l.state) && not (is_active l.state)
    then (err (lifecycle (text "retire only from Active, got " ++ debug_key_state l.state)), l)
    else (ok tt, record l { state = retired })
