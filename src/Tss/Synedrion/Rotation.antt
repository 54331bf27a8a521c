-- ===== src/Tss/Synedrion/Rotation.antt =====
-- `do_rotation_via_resharing` of crates/keymesh-tss/src/lifecycle.rs: the shares of a key are handed to new
-- participants.

pub mod Handover
use key_mesh.Prelude.{
  ℕ, zero, suc, ◌+◌, ◌%◌, not, Bool, true, false, List, [], ◌∷◌, ◌++◌, Option, none, some,
  get_elem?, map, length, ltb, ◌==◌, if◌then◌else◌,
}
use key_mesh.Prelude.Bytes.{bytes_eq}
use key_mesh.Prelude.Keccak.{Keccak}
use key_mesh.Prelude.Text.{Str, text, decimal}
use key_mesh.Prelude.Outcome.{Result, ok}
use key_mesh.Prelude.Panics.{Attempt, ◌>>=◌, ◌>>◌, unwrap, map_err, ok_or, fail_when}
use key_mesh.Tss.Errors.{TssError, rotation_failed, invalid_threshold, invalid_participant_set}
use key_mesh.Tss.Key.{Participant, ThresholdKeyMaterial}
use key_mesh.Tss.Synedrion.{
  Holding, NewHolder, KeyResharing, Synedrion, set_of, set_contains, map_insert, map_get,
  results_of, aux_points, group_key_of,
}
use key_mesh.Tss.Synedrion.Refresh.{first_value}
use key_mesh.Tss.Synedrion.Seating.{Seat, name_to_old_idx, seats_from}

module _ {K X V Share Aux Point Init Whole Seed : Type 0}
    (synedrion : Synedrion K X V Share Aux Point Init Whole Seed) where
  -- The old participants, of whom those who stay are new holders too.
  unfoldable pub old_points :
      NewHolder K V
      → List V
      → ℕ
      → List (Participant (Holding X V Share Aux))
      → List (X × KeyResharing K V Share)
  old_points new_holder new_holders t [] = []
  old_points new_holder new_holders t (p ∷ participants) =
      (
        p.holding.signer,
        record {
          old_holder = some p.holding.threshold_share;
          new_holder =
              if set_contains synedrion new_holders p.holding.verifier
              then some new_holder
              else none;
          new_holders = new_holders;
          new_threshold = t;
        },
      )
      ∷ old_points new_holder new_holders t participants

  -- The fresh participants whose verifier is no old one.
  unfoldable pub fresh_points :
      NewHolder K V
      → (old_verifiers new_holders : List V) → ℕ
      → List (Seat X V)
      → List (X × KeyResharing K V Share)
  fresh_points new_holder old_verifiers new_holders t [] = []
  fresh_points new_holder old_verifiers new_holders t (seat ∷ seats) =
      let rest = fresh_points new_holder old_verifiers new_holders t seats in
      if not seat.fresh
      then rest
      else if set_contains synedrion old_verifiers seat.verifier
      then rest
      else (
        seat.signer,
        record {
          old_holder = none;
          new_holder = some new_holder;
          new_holders = new_holders;
          new_threshold = t;
        },
      )
        ∷ rest

  -- The shares of the new holders, into the map `new_shares`.
  unfoldable pub collect_shares :
      List (V × Option Share) → List (V × Share) → List V → Attempt (List (V × Share)) TssError
  collect_shares reshared_map new_shares [] = some (ok new_shares)
  collect_shares reshared_map new_shares (verifier ∷ verifiers) = do
    opt ← ok_or (map_get synedrion reshared_map verifier) (
        rotation_failed
          (text "missing resharing result for verifier " ++ synedrion.debug_verifier verifier))
    share ← ok_or opt (
        rotation_failed
          (text "expected Some share for new holder " ++ synedrion.debug_verifier verifier))
    collect_shares reshared_map (map_insert synedrion verifier share new_shares) verifiers

  unfoldable pub assembled :
      List (V × Share)
      → List (V × Aux)
      → ℕ
      → List (Seat X V)
      → Attempt (List (Participant (Holding X V Share Aux))) TssError
  assembled new_shares aux_infos idx [] = some (ok [])
  assembled new_shares aux_infos idx (seat ∷ seats) = do
    share ← unwrap (map_get synedrion new_shares seat.verifier)
    aux ← unwrap (map_get synedrion aux_infos seat.verifier)
    others ← assembled new_shares aux_infos (suc idx) seats
    some (
        ok (
          record {
            index = idx % 256;
            holding = record {
              signer = seat.signer;
              verifier = seat.verifier;
              threshold_share = share;
              aux_info = aux;
            };
          }
          ∷ others))

  -- From the seats on.
  unfoldable pub hand_over :
      Keccak
      → (resharing_seed aux_seed : Seed) → ThresholdKeyMaterial K (Holding X V Share Aux)
      → (new_threshold n_new : ℕ) → List (Seat X V)
      → Attempt (ThresholdKeyMaterial K (Holding X V Share Aux)) TssError
  hand_over keccak resharing_seed aux_seed old_mat new_threshold n_new seats =
      let verifying_key = old_mat.group_public_key.verifying_key in
      let old_verifiers = set_of synedrion (map (λ p. p.holding.verifier) old_mat.participants) in
      let new_verifiers = map (λ seat. seat.verifier) seats in
      let new_holders = set_of synedrion new_verifiers in
      do
        first ← unwrap (get_elem? old_mat.participants 0)
        let new_holder_info : NewHolder K V = record {
          verifying_key = verifying_key;
          old_threshold = synedrion.share_threshold first.holding.threshold_share;
          old_holders = old_verifiers;
        }
        reshared_map ←
            results_of synedrion (λ e. rotation_failed (text "KeyResharing run_sync: " ++ e))
              (λ e. rotation_failed (text "results: " ++ e))
              (synedrion.run_key_resharing resharing_seed (
                old_points new_holder_info new_holders new_threshold old_mat.participants
                ++ fresh_points new_holder_info old_verifiers new_holders new_threshold seats))
        new_shares ← collect_shares reshared_map [] new_verifiers
        first_share ← unwrap (first_value new_shares)
        vk0 ← map_err rotation_failed (synedrion.share_verifying_key first_share)
        fail_when (not (synedrion.key_eq vk0 verifying_key))
            (rotation_failed (text "VK changed after rotation"))
        points ←
            aux_points synedrion (λ e. rotation_failed (text "AuxGen new: " ++ e)) new_holders
              (map (λ seat. seat.signer) seats)
        aux_infos ←
            results_of synedrion (λ e. rotation_failed (text "AuxGen run_sync: " ++ e))
              (λ e. rotation_failed (text "AuxGen results: " ++ e))
              (synedrion.run_aux_gen aux_seed points)
        participants ← assembled new_shares aux_infos 0 seats
        some (
            ok (record {
              participants = participants;
              group_public_key = group_key_of synedrion keccak vk0;
              threshold = new_threshold;
              total = n_new;
            }))

  unfoldable pub do_rotation_via_resharing :
      Keccak
      → (resharing_seed aux_seed : Seed) → ThresholdKeyMaterial K (Holding X V Share Aux)
      → List Str
      → ℕ
      → Attempt (ThresholdKeyMaterial K (Holding X V Share Aux)) TssError
  do_rotation_via_resharing keccak resharing_seed aux_seed old_mat new_participant_ids
        new_threshold =
      let n_new = length new_participant_ids in
      do
        fail_when (ltb n_new new_threshold) (
            invalid_threshold
              (text "threshold " ++ (decimal new_threshold ++ (text " > n_new " ++ decimal n_new))))
        fail_when (n_new == 0) (invalid_participant_set (text "empty new set"))
        seats ←
            seats_from synedrion (name_to_old_idx 0 (length old_mat.participants) [])
              old_mat.participants 0 new_participant_ids
        hand_over keccak resharing_seed aux_seed old_mat new_threshold n_new seats
