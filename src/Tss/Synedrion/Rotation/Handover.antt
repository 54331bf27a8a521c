-- ===== src/Tss/Synedrion/Rotation/Handover.antt =====
-- What `do_rotation_via_resharing` of crates/keymesh-tss/src/lifecycle.rs keeps, and whom it seats.
use key_mesh.Prelude.{
  ℕ, suc, ◌+◌, ◌%◌, ◌≤◌, ◌<◌, ◌≡◌, refl, ap, List, [], ◌∷◌, Option, none, some, get_elem?, length,
  arith,
}
use key_mesh.Prelude.Keccak.{Keccak}
use key_mesh.Prelude.Text.{Str}
use key_mesh.Prelude.Outcome.{ok}
use key_mesh.Prelude.Panics.{through, returned, unwrap-ok, fail_when-ok}
use key_mesh.Tss.Key.{Participant, ThresholdKeyMaterial}
use key_mesh.Tss.Synedrion.{Holding, Synedrion, group_key_of, ethereum_address_of}
use key_mesh.Tss.Synedrion.Seating.{Seat, name_to_old_idx, get_name, seat_for, seats_from}
use key_mesh.Tss.Synedrion.Rotation.{assembled, hand_over, do_rotation_via_resharing}
use key_mesh.Tss.Synedrion.Refresh.Kept.{key_eq-same}

module _ {K X V Share Aux Point Init Whole Seed : Type 0}
    (synedrion : Synedrion K X V Share Aux Point Init Whole Seed) where
  -- The signer and the verifier of the old participant at an index, or else of a fresh one.
  abbrev pub SitsAs : Option ℕ → List (Participant (Holding X V Share Aux)) → ℕ → X → V → Type 0
  SitsAs none old idx signer verifier =
      (signer ≡ synedrion.signer ((100 + idx) % 256))
      × (verifier ≡ synedrion.verifying_key (synedrion.signer ((100 + idx) % 256)))
  SitsAs (some i) old idx signer verifier =
      (p : Participant (Holding X V Share Aux)) × (get_elem? old i ≡ some p)
      × (signer ≡ p.holding.signer)
      × (verifier ≡ p.holding.verifier)

  -- The participants at the places of their names.
  abbrev pub Seated :
      List (Str × ℕ)
      → List (Participant (Holding X V Share Aux))
      → ℕ
      → List Str
      → List (Participant (Holding X V Share Aux))
      → Type 0
  Seated names old idx [] [] = Unit
  Seated names old idx (id ∷ ids) (q ∷ qs) =
      (q.index ≡ idx % 256)
      × SitsAs (get_name names id) old idx q.holding.signer q.holding.verifier
      × Seated names old (suc idx) ids qs
  Seated names old idx _ _ = ⊥

  seat_for-SitsAs :
      (old : List (Participant (Holding X V Share Aux))) (idx : ℕ) (found : Option ℕ)
      (seat : Seat X V)
      → seat_for synedrion old idx found ≡ some (ok seat)
      → SitsAs found old idx seat.signer seat.verifier
  unfolding seat_for
  seat_for-SitsAs old idx none seat h = rw (← returned h) (refl, refl)
  seat_for-SitsAs old idx (some i) seat h =
      through h (λ p at_i made. rw (← returned made) (p, unwrap-ok _ p at_i, refl, refl))

  seated :
      (names : List (Str × ℕ)) (old : List (Participant (Holding X V Share Aux))) (idx : ℕ)
      (ids : List Str) (seats : List (Seat X V)) (new_shares : List (V × Share))
      (aux_infos : List (V × Aux)) (qs : List (Participant (Holding X V Share Aux)))
      → seats_from synedrion names old idx ids ≡ some (ok seats)
      → assembled synedrion new_shares aux_infos idx seats ≡ some (ok qs)
      → Seated names old idx ids qs
  unfolding seats_from assembled
  seated names old idx [] seats new_shares aux_infos qs chosen built =
      let nobody : some (ok []) ≡ some (ok qs) = rw (← returned chosen) at built in
      rw (← returned nobody) tt
  seated names old idx (id ∷ ids) seats new_shares aux_infos qs chosen built =
      through chosen (λ seat sits h1. through h1 (λ rest others h2.
        let filled : assembled synedrion new_shares aux_infos idx (seat ∷ rest) ≡ some (ok qs) =
          rw (← returned h2) at built in
        through filled (λ share _ h3. through h3 (λ aux _ h4. through h4 (λ more built_more h5.
          rw (← returned h5) (
            refl,
            seat_for-SitsAs old idx (get_name names id) seat sits,
            seated names old (suc idx) ids rest new_shares aux_infos more others built_more,
          ))))))

  hand_over-kept :
      (keccak : Keccak) (seed aux_seed : Seed)
      (old new : ThresholdKeyMaterial K (Holding X V Share Aux)) (t n : ℕ) (names : List (Str × ℕ))
      (ids : List Str) (seats : List (Seat X V))
      → seats_from synedrion names old.participants 0 ids ≡ some (ok seats)
      → hand_over synedrion keccak seed aux_seed old t n seats ≡ some (ok new)
      → (new.group_public_key.verifying_key ≡ old.group_public_key.verifying_key)
        × (new.group_public_key.ethereum_address
            ≡ ethereum_address_of synedrion keccak old.group_public_key.verifying_key)
        × (new.threshold ≡ t)
        × (new.total ≡ n)
        × Seated names old.participants 0 ids new.participants
  unfolding hand_over group_key_of
  hand_over-kept keccak seed aux_seed old new t n names ids seats chosen h =
      through h (λ first _ h1. through h1 (λ reshared _ h2. through h2 (λ new_shares _ h3.
        through h3 (λ first_share _ h4. through h4 (λ vk0 _ h5. through h5 (λ _ unchanged h6.
          through h6 (λ points _ h7. through h7 (λ aux_infos _ h8.
            through h8 (λ participants built h9.
              let vk =
                key_eq-same synedrion vk0 old.group_public_key.verifying_key
                  (fail_when-ok _ _ unchanged) in
              rw (← returned h9) (
                vk,
                ap (ethereum_address_of synedrion keccak) vk,
                refl,
                refl,
                seated names old.participants 0 ids seats new_shares aux_infos participants chosen
                    built,
              ))))))))))

  -- A rotation that returns keeps the group's key, takes the address from it, has the new threshold, at
  -- most the number of names, which is the new total and not 0, and seats the participants at the places
  -- of their names: an old participant where the name stands for one, a fresh signer elsewhere.
  pub rotation-kept :
      (keccak : Keccak) (seed aux_seed : Seed)
      (old new : ThresholdKeyMaterial K (Holding X V Share Aux)) (ids : List Str) (t : ℕ)
      → do_rotation_via_resharing synedrion keccak seed aux_seed old ids t ≡ some (ok new)
      → (new.group_public_key.verifying_key ≡ old.group_public_key.verifying_key)
        × (new.group_public_key.ethereum_address
            ≡ ethereum_address_of synedrion keccak old.group_public_key.verifying_key)
        × (new.threshold ≡ t)
        × (new.total ≡ length ids)
        × (t ≤ length ids)
        × (0 < length ids)
        × Seated
            (name_to_old_idx 0 (length old.participants) [])
            old.participants
            0
            ids
            new.participants
  unfolding do_rotation_via_resharing
  rotation-kept keccak seed aux_seed old new ids t h = through h (λ _ fits h1.
      through h1 (λ _ some_ids h2. through h2 (λ seats chosen h3.
        let (vk, address, threshold, total, places) =
          hand_over-kept keccak seed aux_seed old new t (length ids)
            (name_to_old_idx 0 (length old.participants) []) ids seats chosen h3 in
        let enough = fail_when-ok _ _ fits in
        let nonempty = fail_when-ok _ _ some_ids in
        (vk, address, threshold, total, ground arith, ground arith, places))))
