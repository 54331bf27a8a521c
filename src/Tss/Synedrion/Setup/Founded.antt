-- ===== src/Tss/Synedrion/Setup/Founded.antt =====
-- What `setup_2of3` of crates/keymesh-tss/src/dkg.rs returns.
use key_mesh.Prelude.{ℕ, suc, ◌%◌, ◌≡◌, refl, sym, ◌∙◌, List, [], ◌∷◌, Option, some}
use key_mesh.Prelude.Keccak.{Keccak}
use key_mesh.Prelude.Outcome.{ok}
use key_mesh.Prelude.Panics.{through, returned, assert-ok}
use key_mesh.Tss.Key.{Participant, ThresholdKeyMaterial}
use key_mesh.Tss.Synedrion.{
  Holding, Synedrion, group_key_of, ethereum_address_of, participant_verifying_key,
}
use key_mesh.Tss.Synedrion.Setup.{
  make_signers, key_at, all_same_key, founders, found, setup_2of3_with_rng,
}

module _ {K X V Share Aux Point Init Whole Seed : Type 0}
    (synedrion : Synedrion K X V Share Aux Point Init Whole Seed) where
  -- The participants of these signers, numbered, each with a share of the key.
  abbrev pub IsFounded : K → ℕ → List X → List (Participant (Holding X V Share Aux)) → Type 0
  IsFounded k idx [] [] = Unit
  IsFounded k idx (signer ∷ signers) (q ∷ qs) =
      (q.index ≡ idx % 256)
      × (q.holding.signer ≡ signer)
      × (q.holding.verifier ≡ synedrion.verifying_key signer)
      × (participant_verifying_key synedrion q ≡ some (ok k))
      × IsFounded k (suc idx) signers qs
  IsFounded k idx _ _ = ⊥

  founders-IsFounded :
      (k : K) (shares : List (V × Share)) (aux_infos : List (V × Aux)) (idx : ℕ) (signers : List X)
      (qs : List (Participant (Holding X V Share Aux)))
      → all_same_key synedrion k shares signers ≡ some (ok tt)
      → founders synedrion shares aux_infos idx signers ≡ some (ok qs)
      → IsFounded k idx signers qs
  unfolding all_same_key founders key_at participant_verifying_key
  founders-IsFounded k shares aux_infos idx [] qs same h = rw (← returned h) tt
  founders-IsFounded k shares aux_infos idx (signer ∷ signers) qs same h =
      through same (λ vk at_v same1. through same1 (λ _ equal same2.
        through at_v (λ share0 found0 read0. through h (λ share found1 h1. through h1 (λ aux _ h2.
          through h2 (λ others more h3.
            let one : share0 ≡ share = returned (sym found0 ∙ found1) in
            let key : vk ≡ k = (synedrion.key_eq_iff vk k).0 (assert-ok _ equal) in
            rw (← returned h3) (
              refl,
              refl,
              refl,
              rw (← one, ← key) read0,
              founders-IsFounded k shares aux_infos (suc idx) signers others same2 more,
            )))))))

  found-IsFounded :
      (keccak : Keccak) (aux_seed : Seed) (t n : ℕ) (signers : List X)
      (results : List (V × Option Share)) (mat : ThresholdKeyMaterial K (Holding X V Share Aux))
      → found synedrion keccak aux_seed t n signers results ≡ some (ok mat)
      → (mat.threshold ≡ t)
        × (mat.total ≡ n)
        × (mat.group_public_key.ethereum_address
            ≡ ethereum_address_of synedrion keccak mat.group_public_key.verifying_key)
        × IsFounded mat.group_public_key.verifying_key 0 signers mat.participants
  unfolding found group_key_of
  found-IsFounded keccak aux_seed t n signers results mat h = through h (λ shares _ h1.
      through h1 (λ first _ h2. through h2 (λ vk0 _ h3. through h3 (λ _ same h4.
        through h4 (λ points _ h5. through h5 (λ aux_infos _ h6.
          through h6 (λ participants built h7. rw (← returned h7) (
            refl,
            refl,
            refl,
            founders-IsFounded vk0 shares aux_infos 0 signers participants same built,
          ))))))))

  -- A set-up that returns gives a key of two of three: the participants 0, 1 and 2 with the signers of
  -- these numbers, who all report the group's key, and the address of that key.
  pub setup-IsFounded :
      (keccak : Keccak) (init_seed resharing_seed aux_seed : Seed)
      (mat : ThresholdKeyMaterial K (Holding X V Share Aux))
      → setup_2of3_with_rng synedrion keccak init_seed resharing_seed aux_seed ≡ some (ok mat)
      → (mat.threshold ≡ 2)
        × (mat.total ≡ 3)
        × (mat.group_public_key.ethereum_address
            ≡ ethereum_address_of synedrion keccak mat.group_public_key.verifying_key)
        × IsFounded mat.group_public_key.verifying_key 0
            (synedrion.signer 0 ∷ synedrion.signer 1 ∷ synedrion.signer 2 ∷ [])
            mat.participants
  unfolding setup_2of3_with_rng make_signers
  setup-IsFounded keccak init_seed resharing_seed aux_seed mat h = through h (λ inits _ h1.
      through h1 (λ key_shares _ h2. through h2 (λ first _ h3. through h3 (λ share0 _ h4.
        through h4 (λ vk _ h5. through h5 (λ points _ h6.
          through h6 (λ results _ h7. found-IsFounded keccak aux_seed 2 3 _ results mat h7)))))))
