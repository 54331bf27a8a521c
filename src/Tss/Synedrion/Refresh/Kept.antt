-- ===== src/Tss/Synedrion/Refresh/Kept.antt =====
-- What `do_refresh_via_resharing` of crates/keymesh-tss/src/lifecycle.rs keeps.
use key_mesh.Prelude.{
  ◌≡◌, refl, ap, ◌∙◌, false, not, List, [], ◌∷◌, some, All, arith, Bool-cases, inl, inr,
}
use key_mesh.Prelude.Keccak.{Keccak}
use key_mesh.Prelude.Outcome.{ok}
use key_mesh.Prelude.Panics.{bind-ok, through, returned, unwrap-ok, map_err-ok, fail_when-ok}
use key_mesh.Tss.Errors.{refresh_failed}
use key_mesh.Tss.Key.{Participant, ThresholdKeyMaterial}
use key_mesh.Tss.Synedrion.{Holding, Synedrion, map_get, group_key_of, ethereum_address_of}
use key_mesh.Tss.Synedrion.Refresh.{same_keys, renewed, do_refresh_via_resharing}

module _ {K X V Share Aux Point Init Whole Seed : Type 0}
    (synedrion : Synedrion K X V Share Aux Point Init Whole Seed) where
  -- The share is one of this key.
  abbrev pub HasKey : K → Share → Type 0
  HasKey k share = synedrion.share_verifying_key share ≡ ok k

  -- The participants at their places with the signers and verifiers they had, and shares of the key.
  abbrev pub SameSeats :
      K
      → List (Participant (Holding X V Share Aux))
      → List (Participant (Holding X V Share Aux))
      → Type 0
  SameSeats k [] [] = Unit
  SameSeats k (p ∷ ps) (q ∷ qs) =
      (q.index ≡ p.index)
      × (q.holding.signer ≡ p.holding.signer)
      × (q.holding.verifier ≡ p.holding.verifier)
      × HasKey k q.holding.threshold_share
      × SameSeats k ps qs
  SameSeats k _ _ = ⊥

  pub key_eq-same : (k k' : K) → not (synedrion.key_eq k k') ≡ false → k ≡ k'
  key_eq-same k k' h = (synedrion.key_eq_iff k k').0 (ground (arith, h))

  same_keys-ok :
      (k : K) (shares : List (V × Share))
      → same_keys synedrion k shares ≡ some (ok tt)
      → All (λ e. HasKey k e.1) shares
  unfolding same_keys
  same_keys-ok k [] h = tt
  same_keys-ok k ((v, share) ∷ shares) h =
      let (vk, read, checking) = bind-ok _ _ tt h in
      let (_, checked, more) = bind-ok _ _ tt checking in
      (
        map_err-ok refresh_failed _ vk read ∙ ap ok (key_eq-same vk k (fail_when-ok _ _ checked)),
        same_keys-ok k shares more,
      )

  pub map_get-HasKey :
      (k : K) (entries : List (V × Share)) (v : V) (share : Share)
      → All (λ e. HasKey k e.1) entries
      → map_get synedrion entries v ≡ some share
      → HasKey k share
  unfolding map_get
  map_get-HasKey k [] v share h found = cc
  map_get-HasKey k ((w, s) ∷ entries) v share h found =
      elim (Bool-cases (synedrion.verifier_eq w v)) [
        | inl e ↦ let same : s ≡ share = ground (arith, found, e) in rw (← same) h.0
        | inr e ↦ map_get-HasKey k entries v share h.1 (ground (arith, found, e))
      ]

  renewed-ok :
      (k : K) (new_shares : List (V × Share)) (aux_infos : List (V × Aux))
      (ps qs : List (Participant (Holding X V Share Aux)))
      → All (λ e. HasKey k e.1) new_shares
      → renewed synedrion new_shares aux_infos ps ≡ some (ok qs)
      → SameSeats k ps qs
  unfolding renewed
  renewed-ok k new_shares aux_infos [] qs keys h = let same : [] ≡ qs = cc in rw (← same) tt
  renewed-ok k new_shares aux_infos (p ∷ ps) qs keys h = through h (λ share found h1.
      through h1 (λ aux _ h2. through h2 (λ others more h3.
        let rest = renewed-ok k new_shares aux_infos ps others keys more in
        let keyed =
          map_get-HasKey k new_shares p.holding.verifier share keys (unwrap-ok _ share found) in
        rw (← returned h3) (refl, refl, refl, keyed, rest))))

  -- A refresh that returns keeps the group's key, the threshold, the number and the places of the
  -- participants with their signers and verifiers, takes the address from the key, and gives every
  -- participant a share of that key.
  pub refresh-kept :
      (keccak : Keccak) (seed aux_seed : Seed)
      (old new : ThresholdKeyMaterial K (Holding X V Share Aux))
      → do_refresh_via_resharing synedrion keccak seed aux_seed old ≡ some (ok new)
      → (new.group_public_key.verifying_key ≡ old.group_public_key.verifying_key)
        × (new.group_public_key.ethereum_address
            ≡ ethereum_address_of synedrion keccak old.group_public_key.verifying_key)
        × (new.threshold ≡ old.threshold)
        × (new.total ≡ old.total)
        × SameSeats old.group_public_key.verifying_key old.participants new.participants
  unfolding do_refresh_via_resharing group_key_of
  refresh-kept keccak seed aux_seed old new h = through h (λ first _ h1.
      through h1 (λ reshared _ h2. through h2 (λ new_shares _ h3. through h3 (λ first_share _ h4.
        through h4 (λ vk0 _ h5. through h5 (λ _ checked h6. through h6 (λ _ unchanged h7.
          through h7 (λ points _ h8. through h8 (λ aux_infos _ h9.
            through h9 (λ participants renewal h10.
              let same = returned h10 in
              let vk : vk0 ≡ old.group_public_key.verifying_key =
                key_eq-same vk0 old.group_public_key.verifying_key (fail_when-ok _ _ unchanged) in
              let keys = rw vk at (same_keys-ok vk0 new_shares checked) in
              rw (← same) (
                vk,
                ap (ethereum_address_of synedrion keccak) vk,
                refl,
                refl,
                renewed-ok old.group_public_key.verifying_key new_shares aux_infos old.participants
                    participants keys renewal,
              )))))))))))
