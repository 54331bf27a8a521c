-- ===== src/Tss/Synedrion.antt =====
-- crates/keymesh-tss/src/participant.rs, and the crates manul and synedrion, which run the protocols.
--
-- `BTreeSet`s and `BTreeMap`s are lists in the order of their keys. A run is given what the code hands to
-- it, and its result is what `run_sync` and then `results` return. A call that panics returns `none`.
pub mod Refresh
pub mod Seating
pub mod Rotation
pub mod Provision
pub mod Setup
use key_mesh.Prelude.{
  ℕ, ◌≡◌, ◌↔◌, Bool, true, false, List, [], ◌∷◌, Option, none, some, drop, if◌then◌else◌,
}
use key_mesh.Prelude.Keccak.{Keccak}
use key_mesh.Prelude.Text.{Str}
use key_mesh.Prelude.Outcome.{Result, ok}
use key_mesh.Prelude.Panics.{Attempt, unwrap_result, map_err, ◌>>=◌}
use key_mesh.Tss.Errors.{TssError}
use key_mesh.Tss.Key.{Participant, GroupPublicKey, ThresholdKeyMaterial}

-- What a participant holds: a `TestSigner`, its `TestVerifier`, a `ThresholdKeyShare` and an `AuxInfo`.
pub record Holding (X V Share Aux : Type 0) : Type 0 where
  pub signer : X
  pub verifier : V
  pub threshold_share : Share
  pub aux_info : Aux

pub record NewHolder (K V : Type 0) : Type 0 where
  pub verifying_key : K
  pub old_threshold : ℕ
  pub old_holders : List V

-- The arguments of `KeyResharing::new`.
pub record KeyResharing (K V Share : Type 0) : Type 0 where
  pub old_holder : Option Share
  pub new_holder : Option (NewHolder K V)
  pub new_holders : List V
  pub new_threshold : ℕ

-- `Point` is an AuxGen that was set up, `Whole` the share of a `KeyInit`, and a seed is the randomness of
-- one run.
pub record Synedrion (K X V Share Aux Point Init Whole Seed : Type 0) : Type 0 where
  pub key_eq : K → K → Bool
  pub key_eq_iff : (k k' : K) → (key_eq k k' ≡ true) ↔ (k ≡ k')
  pub encoded_point : K → (compressed : Bool) → List ℕ
  pub verifier_eq : V → V → Bool
  pub verifier_lt : V → V → Bool
  pub debug_verifier : V → Str
  pub signer : ℕ → X
  pub verifying_key : X → V
  pub share_verifying_key : Share → Result K Str
  pub share_threshold : Share → ℕ
  pub from_key_share : Whole → Share
  pub key_init : List V → Result Init Str
  pub run_key_init : Seed → List (X × Init) → Result (Result (List (V × Whole)) Str) Str
  pub run_key_resharing :
      Seed → List (X × KeyResharing K V Share) → Result (Result (List (V × Option Share)) Str) Str
  pub aux_gen : List V → Result Point Str
  pub run_aux_gen : Seed → List (X × Point) → Result (Result (List (V × Aux)) Str) Str

module _ {K X V Share Aux Point Init Whole Seed : Type 0}
    (synedrion : Synedrion K X V Share Aux Point Init Whole Seed) where
  -- `insert` into a `BTreeSet`.
  unfoldable pub set_insert : V → List V → List V
  set_insert v [] = v ∷ []
  set_insert v (w ∷ set) =
      let rest = set_insert v set in
      if synedrion.verifier_eq v w
      then w ∷ set
      else if synedrion.verifier_lt v w
      then v ∷ (w ∷ set)
      else w ∷ rest

  unfoldable pub set_of : List V → List V
  set_of [] = []
  set_of (v ∷ vs) = set_insert v (set_of vs)

  unfoldable pub set_contains : List V → V → Bool
  set_contains [] v = false
  set_contains (w ∷ set) v =
      let rest = set_contains set v in if synedrion.verifier_eq w v then true else rest

  -- `insert` into a `BTreeMap`, which replaces the value of an equal key.
  unfoldable pub map_insert : {A : Type 0} → V → A → List (V × A) → List (V × A)
  map_insert v a [] = (v, a) ∷ []
  map_insert v a ((w, b) ∷ entries) =
      let rest = map_insert v a entries in
      if synedrion.verifier_eq v w
      then (w, a) ∷ entries
      else if synedrion.verifier_lt v w
      then (v, a) ∷ ((w, b) ∷ entries)
      else (w, b) ∷ rest

  unfoldable pub map_get : {A : Type 0} → List (V × A) → V → Option A
  map_get [] v = none
  map_get ((w, a) ∷ entries) v =
      let rest = map_get entries v in if synedrion.verifier_eq w v then some a else rest

  -- `.map_err(..)?.results().map_err(..)?` behind a run.
  unfoldable pub results_of :
      {A : Type 0}
      → (run_error results_error : Str → TssError) → Result (Result A Str) Str
      → Attempt A TssError
  results_of run_error results_error outcome = map_err run_error outcome >>= map_err results_error

  -- An `AuxGen` for each signer, up to the first error.
  unfoldable pub aux_points :
      (Str → TssError) → List V → List X → Attempt (List (X × Point)) TssError
  aux_points error holders [] = some (ok [])
  aux_points error holders (signer ∷ signers) = do
    point ← map_err error (synedrion.aux_gen holders)
    points ← aux_points error holders signers
    some (ok ((signer, point) ∷ points))

  unfoldable pub ethereum_address_of : Keccak → K → List ℕ
  ethereum_address_of keccak vk = drop 12 (keccak.hash (drop 1 (synedrion.encoded_point vk false)))

  unfoldable pub group_key_of : Keccak → K → GroupPublicKey K
  group_key_of keccak vk = record {
    verifying_key = vk;
    ethereum_address = ethereum_address_of keccak vk;
  }

  -- The two getters of `Participant`.
  unfoldable pub participant_verifying_key :
      Participant (Holding X V Share Aux) → Attempt K TssError
  participant_verifying_key p =
      unwrap_result (synedrion.share_verifying_key p.holding.threshold_share)

  unfoldable pub participant_ethereum_address :
      Keccak → Participant (Holding X V Share Aux) → Attempt (List ℕ) TssError
  participant_ethereum_address keccak p = do
    vk ← participant_verifying_key p
    some (ok (ethereum_address_of keccak vk))
