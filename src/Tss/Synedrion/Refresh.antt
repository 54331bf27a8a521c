-- ===== src/Tss/Synedrion/Refresh.antt =====
-- `do_refresh_via_resharing` of crates/keymesh-tss/src/lifecycle.rs: the shares of a key are renewed among
-- the same participants.
pub mod Kept
pub mod Returns
use key_mesh.Prelude.{ℕ, not, List, [], ◌∷◌, ◌++◌, Option, none, some, get_elem?, map}
use key_mesh.Prelude.Keccak.{Keccak}
use key_mesh.Prelude.Text.{Str, text}
use key_mesh.Prelude.Outcome.{Result, ok}
use key_mesh.Prelude.Panics.{Attempt, ◌>>=◌, ◌>>◌, unwrap, map_err, ok_or, fail_when}
use key_mesh.Tss.Errors.{TssError, refresh_failed}
use key_mesh.Tss.Key.{Participant, ThresholdKeyMaterial}
use key_mesh.Tss.Synedrion.{
  Holding, NewHolder, KeyResharing, Synedrion, set_of, map_get, results_of, aux_points,
  group_key_of,
}

-- The share of every result, up to the first participant without one.
unfoldable pub every_share :
    {V Share : Type 0} → List (V × Option Share) → Attempt (List (V × Share)) TssError
every_share [] = some (ok [])
every_share ((v, share) ∷ results) = do
  new_share ← ok_or share (refresh_failed (text "missing share for refresh"))
  new_shares ← every_share results
  some (ok ((v, new_share) ∷ new_shares))

-- The value of the first key; its absence is the panic of an `unwrap`.
abbrev pub first_value : {V A : Type 0} → List (V × A) → Option A
first_value [] = none
first_value ((v, a) ∷ entries) = some a

module _ {K X V Share Aux Point Init Whole Seed : Type 0}
    (synedrion : Synedrion K X V Share Aux Point Init Whole Seed) where
  -- Every share has the key of the first.
  unfoldable pub same_keys : K → List (V × Share) → Attempt (Unit {0}) TssError
  same_keys vk0 [] = some (ok tt)
  same_keys vk0 ((v, share) ∷ shares) = do
    vk ← map_err refresh_failed (synedrion.share_verifying_key share)
    fail_when (not (synedrion.key_eq vk vk0))
        (refresh_failed (text "VK mismatch for " ++ synedrion.debug_verifier v))
    same_keys vk0 shares

  -- Every participant is an old and a new holder.
  unfoldable pub refresh_points :
      NewHolder K V
      → List V
      → ℕ
      → List (Participant (Holding X V Share Aux))
      → List (X × KeyResharing K V Share)
  refresh_points new_holder all_verifiers t [] = []
  refresh_points new_holder all_verifiers t (p ∷ participants) =
      (
        p.holding.signer,
        record {
          old_holder = some p.holding.threshold_share;
          new_holder = some new_holder;
          new_holders = all_verifiers;
          new_threshold = t;
        },
      )
      ∷ refresh_points new_holder all_verifiers t participants

  -- The participants with their new shares and aux infos; a missing one is the panic of an index.
  unfoldable pub renewed :
      List (V × Share)
      → List (V × Aux)
      → List (Participant (Holding X V Share Aux))
      → Attempt (List (Participant (Holding X V Share Aux))) TssError
  renewed new_shares aux_infos [] = some (ok [])
  renewed new_shares aux_infos (p ∷ participants) = do
    share ← unwrap (map_get synedrion new_shares p.holding.verifier)
    aux ← unwrap (map_get synedrion aux_infos p.holding.verifier)
    others ← renewed new_shares aux_infos participants
    some (
        ok (
          record {
            index = p.index;
            holding = record {
              signer = p.holding.signer;
              verifier = p.holding.verifier;
              threshold_share = share;
              aux_info = aux;
            };
          }
          ∷ others))

  unfoldable pub do_refresh_via_resharing :
      Keccak
      → (resharing_seed aux_seed : Seed) → ThresholdKeyMaterial K (Holding X V Share Aux)
      → Attempt (ThresholdKeyMaterial K (Holding X V Share Aux)) TssError
  do_refresh_via_resharing keccak resharing_seed aux_seed old_mat =
      let all_verifiers = set_of synedrion (map (λ p. p.holding.verifier) old_mat.participants) in
      let verifying_key = old_mat.group_public_key.verifying_key in
      do
        first ← unwrap (get_elem? old_mat.participants 0)
        reshared_map ←
            results_of synedrion (λ e. refresh_failed (text "KeyResharing run_sync: " ++ e))
              (λ e. refresh_failed (text "results: " ++ e))
              (synedrion.run_key_resharing resharing_seed (
                refresh_points
                  (record {
                    verifying_key = verifying_key;
                    old_threshold = synedrion.share_threshold first.holding.threshold_share;
                    old_holders = all_verifiers;
                  })
                  all_verifiers old_mat.threshold old_mat.participants))
        new_shares ← every_share reshared_map
        first_share ← unwrap (first_value new_shares)
        vk0 ← map_err refresh_failed (synedrion.share_verifying_key first_share)
        same_keys vk0 new_shares
        fail_when (not (synedrion.key_eq vk0 verifying_key))
            (refresh_failed (text "VK changed after refresh"))
        points ←
            aux_points synedrion (λ e. refresh_failed (text "AuxGen new: " ++ e)) all_verifiers
              (map (λ p. p.holding.signer) old_mat.participants)
        aux_infos ←
            results_of synedrion (λ e. refresh_failed (text "AuxGen run_sync: " ++ e))
              (λ e. refresh_failed (text "AuxGen results: " ++ e))
              (synedrion.run_aux_gen aux_seed points)
        participants ← renewed new_shares aux_infos old_mat.participants
        some (
            ok (record {
              participants = participants;
              group_public_key = group_key_of synedrion keccak vk0;
              threshold = old_mat.threshold;
              total = old_mat.total;
            }))
