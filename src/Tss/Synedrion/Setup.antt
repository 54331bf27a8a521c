-- ===== src/Tss/Synedrion/Setup.antt =====
-- `setup_2of3` of crates/keymesh-tss/src/dkg.rs: a new key of two of three, from KeyInit among two,
-- KeyResharing to three and AuxGen among them.
pub mod Founded
use key_mesh.Prelude.{
  ℕ, zero, suc, ◌%◌, Bool, true, false, List, [], ◌∷◌, ◌++◌, Option, none, some, get_elem?, map,
  take, drop,
}
use key_mesh.Prelude.Keccak.{Keccak}
use key_mesh.Prelude.Text.{Str, text}
use key_mesh.Prelude.Outcome.{Result, ok, err}
use key_mesh.Prelude.Panics.{Attempt, ◌>>=◌, ◌>>◌, unwrap, unwrap_result, assert, map_err}
use key_mesh.Tss.Errors.{TssError, dkg_failed}
use key_mesh.Tss.Key.{Participant, ThresholdKeyMaterial}
use key_mesh.Tss.Synedrion.{
  Holding, NewHolder, KeyResharing, Synedrion, set_of, map_get, results_of, aux_points,
  group_key_of,
}

-- `expect("new holder should have share")` for each result.
unfoldable pub expected_shares :
    {V Share : Type 0} → List (V × Option Share) → Attempt (List (V × Share)) TssError
expected_shares [] = some (ok [])
expected_shares ((v, opt) ∷ results) = do
  share ← unwrap opt
  shares ← expected_shares results
  some (ok ((v, share) ∷ shares))

module _ {K X V Share Aux Point Init Whole Seed : Type 0}
    (synedrion : Synedrion K X V Share Aux Point Init Whole Seed) where
  -- The signers of `make_signers`, from `i` on; its verifiers are theirs.
  unfoldable pub make_signers : (i n : ℕ) → List X
  make_signers i zero = []
  make_signers i (suc n) = synedrion.signer (i % 256) ∷ make_signers (suc i) n

  unfoldable pub init_points : List V → List X → Attempt (List (X × Init)) TssError
  init_points old_holders [] = some (ok [])
  init_points old_holders (signer ∷ signers) = do
    ep ← map_err dkg_failed (synedrion.key_init old_holders)
    points ← init_points old_holders signers
    some (ok ((signer, ep) ∷ points))

  -- The first participants are old and new holders.
  unfoldable pub old_and_new :
      NewHolder K V
      → List V
      → ℕ
      → List (V × Share)
      → List X
      → Attempt (List (X × KeyResharing K V Share)) TssError
  old_and_new new_holder all_verifiers t shares [] = some (ok [])
  old_and_new new_holder all_verifiers t shares (signer ∷ signers) = do
    share ← unwrap (map_get synedrion shares (synedrion.verifying_key signer))
    points ← old_and_new new_holder all_verifiers t shares signers
    some (
        ok (
          (
            signer,
            record {
              old_holder = some share;
              new_holder = some new_holder;
              new_holders = all_verifiers;
              new_threshold = t;
            },
          )
          ∷ points))

  unfoldable pub only_new : NewHolder K V → List V → ℕ → List X → List (X × KeyResharing K V Share)
  only_new new_holder all_verifiers t [] = []
  only_new new_holder all_verifiers t (signer ∷ signers) =
      (
        signer,
        record {
          old_holder = none;
          new_holder = some new_holder;
          new_holders = all_verifiers;
          new_threshold = t;
        },
      )
      ∷ only_new new_holder all_verifiers t signers

  -- `new_t_key_shares[v].verifying_key().unwrap()`.
  unfoldable pub key_at : List (V × Share) → V → Attempt K TssError
  key_at shares v = do
    share ← unwrap (map_get synedrion shares v)
    unwrap_result (synedrion.share_verifying_key share)

  unfoldable pub all_same_key : K → List (V × Share) → List X → Attempt (Unit {0}) TssError
  all_same_key vk0 shares [] = some (ok tt)
  all_same_key vk0 shares (signer ∷ signers) = do
    vk ← key_at shares (synedrion.verifying_key signer)
    assert (synedrion.key_eq vk vk0)
    all_same_key vk0 shares signers

  unfoldable pub founders :
      List (V × Share)
      → List (V × Aux)
      → ℕ
      → List X
      → Attempt (List (Participant (Holding X V Share Aux))) TssError
  founders shares aux_infos idx [] = some (ok [])
  founders shares aux_infos idx (signer ∷ signers) = do
    share ← unwrap (map_get synedrion shares (synedrion.verifying_key signer))
    aux ← unwrap (map_get synedrion aux_infos (synedrion.verifying_key signer))
    others ← founders shares aux_infos (suc idx) signers
    some (
        ok (
          record {
            index = idx % 256;
            holding = record {
              signer = signer;
              verifier = synedrion.verifying_key signer;
              threshold_share = share;
              aux_info = aux;
            };
          }
          ∷ others))

  -- From the shares of KeyResharing on.
  unfoldable pub found :
      Keccak
      → Seed
      → (t n : ℕ) (signers : List X) → List (V × Option Share)
      → Attempt (ThresholdKeyMaterial K (Holding X V Share Aux)) TssError
  found keccak aux_seed t n signers resharing_results = do
    new_t_key_shares ← expected_shares resharing_results
    first ← unwrap (get_elem? signers 0)
    vk0 ← key_at new_t_key_shares (synedrion.verifying_key first)
    all_same_key vk0 new_t_key_shares signers
    points ←
        aux_points synedrion (λ e. dkg_failed (text "AuxGen new: " ++ e))
          (set_of synedrion (map synedrion.verifying_key signers)) signers
    aux_infos ←
        results_of synedrion (λ e. dkg_failed (text "AuxGen run_sync: " ++ e))
          (λ e. dkg_failed (text "AuxGen results: " ++ e)) (synedrion.run_aux_gen aux_seed points)
    participants ← founders new_t_key_shares aux_infos 0 signers
    some (
        ok (record {
          participants = participants;
          group_public_key = group_key_of synedrion keccak vk0;
          threshold = t;
          total = n;
        }))

  -- `t` is 2 and `n` is 3.
  unfoldable pub setup_2of3_with_rng :
      Keccak
      → (init_seed resharing_seed aux_seed : Seed)
      → Attempt (ThresholdKeyMaterial K (Holding X V Share Aux)) TssError
  setup_2of3_with_rng keccak init_seed resharing_seed aux_seed =
      let signers = make_signers 0 3 in
      let all_verifiers = set_of synedrion (map synedrion.verifying_key signers) in
      let old_holders = set_of synedrion (map synedrion.verifying_key (take 2 signers)) in
      do
        inits ← init_points old_holders (take 2 signers)
        key_shares ←
            results_of synedrion (λ e. dkg_failed (text "KeyInit run_sync: " ++ e))
              (λ e. dkg_failed (text "KeyInit results: " ++ e))
              (synedrion.run_key_init init_seed inits)
        let t_key_shares : List (V × Share) =
            map (λ entry. (entry.0, synedrion.from_key_share entry.1)) key_shares
        first ← unwrap (get_elem? signers 0)
        share0 ← unwrap (map_get synedrion t_key_shares (synedrion.verifying_key first))
        verifying_key ←
            map_err (λ e. dkg_failed (text "vk: " ++ e)) (synedrion.share_verifying_key share0)
        let new_holder : NewHolder K V = record {
          verifying_key = verifying_key;
          old_threshold = synedrion.share_threshold share0;
          old_holders = old_holders;
        }
        points ← old_and_new new_holder all_verifiers 2 t_key_shares (take 2 signers)
        new_t_shares_map ←
            results_of synedrion (λ e. dkg_failed (text "KeyResharing run_sync: " ++ e))
              (λ e. dkg_failed (text "KeyResharing results: " ++ e))
              (synedrion.run_key_resharing resharing_seed
                (points ++ only_new new_holder all_verifiers 2 (drop 2 signers)))
        found keccak aux_seed 2 3 signers new_t_shares_map
