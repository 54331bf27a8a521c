-- ===== src/Tss/Interactive.antt =====
-- crates/keymesh-tss/src/signing.rs: the interactive run inside `threshold_sign`, from the selection of the
-- participants to `r`, `s` and the recovery id.
--
-- A `BTreeSet` is the list of its elements in their order. A call that panics returns `none`.
use key_mesh.Prelude.{
  ℕ, ◌-◌, ◌≤◌, ◌≡◌, Bool, List, [], ◌∷◌, ◌++◌, Option, none, some, ◌==◌, if◌then◌else◌, take, drop,
}
use key_mesh.Prelude.Bytes.{bytes_eq, from_be_bytes}
use key_mesh.Prelude.Text.{Str, text}
use key_mesh.Prelude.Outcome.{Result, ok}
use key_mesh.Prelude.Panics.{Attempt, ◌>>=◌, ◌>>◌, unwrap, map_err, ok_or, assert}
use key_mesh.Tss.Errors.{TssError, signing_failed}
use key_mesh.Tss.Key.{Participant}

-- The order of secp256k1, as bytes.
abbrev pub curve_order : List ℕ
curve_order =
    0xff ∷ 0xff ∷ 0xff ∷ 0xff ∷ 0xff ∷ 0xff ∷ 0xff ∷ 0xff ∷ 0xff ∷ 0xff ∷ 0xff ∷ 0xff ∷ 0xff ∷ 0xff
    ∷ 0xff ∷ 0xfe ∷ 0xba ∷ 0xae ∷ 0xdc ∷ 0xe6 ∷ 0xaf ∷ 0x48 ∷ 0xa0 ∷ 0x3b ∷ 0xbf ∷ 0xd2 ∷ 0x5e
    ∷ 0x8c ∷ 0xd0 ∷ 0x36 ∷ 0x41 ∷ 0x41 ∷ []

-- manul, synedrion and k256. A run gets the entry points of `InteractiveSigning::new`, and its result is
-- what `run_sync` and then `results` return; `to_backend` gives the 64 bytes of a signature and its recovery
-- id. `from_repr` refuses what is not below the order, and `recover` takes the digest, `r`, `s` and a
-- recovery id of at most 3, and gives none where `r` and `s` are no signature.
pub record SigningProtocols (K H Seed Scalar : Type 0) : Type 1 where
  pub Verifier : Type 0
  pub Signer : Type 0
  pub KeyShare : Type 0
  pub AuxSubset : Type 0
  pub Session : Type 0
  pub Signature : Type 0
  pub key_eq : K → K → Bool
  pub verifier_eq : Verifier → Verifier → Bool
  pub verifier_lt : Verifier → Verifier → Bool
  pub verifier : H → Verifier
  pub signer : H → Signer
  pub to_key_share : H → List Verifier → Result KeyShare Str
  pub subset : H → List Verifier → Result AuxSubset Str
  pub new_signing : List ℕ → KeyShare → AuxSubset → Result Session Str
  pub run_signing :
      Seed → List (Signer × Session) → Result (Result (List (Verifier × Signature)) Str) Str
  pub to_backend : Signature → List ℕ × ℕ
  pub from_repr : List ℕ → Option Scalar
  pub minus : Scalar → Scalar → Scalar
  pub to_bytes : Scalar → List ℕ
  pub recover : List ℕ → List ℕ → List ℕ → ℕ → Option K
  pub from_repr-order :
      (bytes : List ℕ) → from_be_bytes curve_order ≤ from_be_bytes bytes → from_repr bytes ≡ none

-- `participants[i]`, which is there for a checked index.
unfoldable pub participant_at : {H : Type 0} → List (Participant H) → ℕ → Option (Participant H)
participant_at [] i = none
participant_at (p ∷ ps) i =
    let later = participant_at ps (i - 1) in if i == 0 then some p else later

unfoldable pub selected :
    {H : Type 0} → List (Participant H) → List ℕ → Attempt (List (Participant H)) TssError
unfolding participant_at
selected ps [] = some (ok [])
selected ps (i ∷ more) = do
  p ← unwrap (participant_at ps i)
  others ← selected ps more
  some (ok (p ∷ others))

module _ {K H Seed Scalar : Type 0} (protocols : SigningProtocols K H Seed Scalar) where
  verifiers_insert : protocols.Verifier → List protocols.Verifier → List protocols.Verifier
  verifiers_insert v [] = v ∷ []
  verifiers_insert v (w ∷ set) =
      let rest = verifiers_insert v set in
      if protocols.verifier_eq v w
      then w ∷ set
      else if protocols.verifier_lt v w
      then v ∷ (w ∷ set)
      else w ∷ rest

  unfoldable pub selected_verifiers : List (Participant H) → List protocols.Verifier
  unfolding verifiers_insert
  selected_verifiers [] = []
  selected_verifiers (p ∷ ps) =
      verifiers_insert (protocols.verifier p.holding) (selected_verifiers ps)

  unfoldable pub selected_shares :
      List protocols.Verifier → List (Participant H) → Attempt (List protocols.KeyShare) TssError
  selected_shares verifiers [] = some (ok [])
  selected_shares verifiers (p ∷ ps) = do
    share ←
        map_err (λ e. signing_failed (text "to_key_share: " ++ e))
          (protocols.to_key_share p.holding verifiers)
    shares ← selected_shares verifiers ps
    some (ok (share ∷ shares))

  unfoldable pub selected_aux :
      List protocols.Verifier → List (Participant H) → Attempt (List protocols.AuxSubset) TssError
  selected_aux verifiers [] = some (ok [])
  selected_aux verifiers (p ∷ ps) = do
    aux ←
        map_err (λ e. signing_failed (text "aux subset: " ++ e))
          (protocols.subset p.holding verifiers)
    auxes ← selected_aux verifiers ps
    some (ok (aux ∷ auxes))

  -- For each position, up to the first error; a list that is too short is the panic of an index.
  unfoldable pub entry_points :
      (message : List ℕ)
      → List (Participant H)
      → List protocols.KeyShare
      → List protocols.AuxSubset
      → Attempt (List (protocols.Signer × protocols.Session)) TssError
  entry_points message [] shares auxes = some (ok [])
  entry_points message (p ∷ ps) (share ∷ shares) (aux ∷ auxes) = do
    session ←
        map_err (λ e. signing_failed (text "InteractiveSigning new: " ++ e))
          (protocols.new_signing message share aux)
    points ← entry_points message ps shares auxes
    some (ok ((protocols.signer p.holding, session) ∷ points))
  entry_points message (p ∷ ps) shares auxes = none

  abbrev first_signature :
      List (protocols.Verifier × protocols.Signature) → Option protocols.Signature
  first_signature [] = none
  first_signature ((v, signature) ∷ signatures) = some signature

  -- `assert_eq!` of each signature with the first.
  unfoldable pub all_same :
      List ℕ → List (protocols.Verifier × protocols.Signature) → Attempt (Unit {0}) TssError
  all_same sig [] = some (ok tt)
  all_same sig ((v, signature) ∷ signatures) = do
    assert (bytes_eq (protocols.to_backend signature).0 sig)
    all_same sig signatures

  unfoldable pub interactive_signing :
      Seed
      → List (Participant H)
      → (subset_indices message : List ℕ) → Attempt (List ℕ × List ℕ × ℕ) TssError
  unfolding selected
  interactive_signing seed participants subset_indices message = do
    chosen ← selected participants subset_indices
    let verifiers = selected_verifiers chosen
    shares ← selected_shares verifiers chosen
    auxes ← selected_aux verifiers chosen
    points ← entry_points message chosen shares auxes
    run ← map_err (λ e. signing_failed (text "run_sync: " ++ e)) (protocols.run_signing seed points)
    signatures ← map_err (λ e. signing_failed (text "results: " ++ e)) run
    first ← ok_or (first_signature signatures) (signing_failed (text "no signatures"))
    let sig = (protocols.to_backend first).0
    all_same sig signatures
    some (ok (take 32 sig, take 32 (drop 32 sig), (protocols.to_backend first).1))
