-- ===== src/Tss/Synedrion/Refresh/Returns.antt =====
-- When `do_refresh_via_resharing` of crates/keymesh-tss/src/lifecycle.rs returns.
use key_mesh.Prelude.{◌≡◌, refl, List, [], ◌∷◌, some, All, map}
use key_mesh.Prelude.Keccak.{Keccak}
use key_mesh.Prelude.Outcome.{Result, ok}
use key_mesh.Prelude.Text.{Str}
use key_mesh.Prelude.Panics.{◌>>=◌, bind-returns, unwrap, map_err, ok_or, fail_when}
use key_mesh.Tss.Errors.{TssError}
use key_mesh.Tss.Key.{Participant, ThresholdKeyMaterial}
use key_mesh.Tss.Synedrion.{
  Holding, KeyResharing, Synedrion, map_get, results_of, aux_points, set_of,
}
use key_mesh.Tss.Synedrion.Refresh.{
  every_share, first_value, same_keys, refresh_points, renewed, do_refresh_via_resharing,
}
use key_mesh.Tss.Synedrion.Refresh.Kept.{HasKey}

head_of :
    {A : Type 0} (P : A → Type 0) (xs : List A) (x : A) (rest : List A)
    → xs ≡ x ∷ rest
    → All P xs
    → P x
head_of P xs x rest e h = (rw e at h).0

every_share-returns :
    {V Share : Type 0} (shares : List (V × Share))
    → every_share (map (λ e. (e.0, some e.1)) shares) ≡ some (ok shares)
unfolding every_share ok_or ◌>>=◌
every_share-returns [] = refl
every_share-returns ((v, share) ∷ shares) = rw (every_share-returns shares) refl

module _ {K X V Share Aux Point Init Whole Seed : Type 0}
    (synedrion : Synedrion K X V Share Aux Point Init Whole Seed) where
  -- The map has an entry for the verifier.
  abbrev pub Has : {A : Type 0} → List (V × A) → V → Type 0
  Has {A} entries v = (a : A) × (map_get synedrion entries v ≡ some a)

  abbrev pub verifiers_of : ThresholdKeyMaterial K (Holding X V Share Aux) → List V
  verifiers_of old = set_of synedrion (map (λ p. p.holding.verifier) old.participants)

  -- The entry points of the resharing of a refresh, in which `p` is the first participant.
  abbrev pub entry_points :
      ThresholdKeyMaterial K (Holding X V Share Aux)
      → Participant (Holding X V Share Aux)
      → List (X × KeyResharing K V Share)
  entry_points old p =
      refresh_points synedrion
        (record {
          verifying_key = old.group_public_key.verifying_key;
          old_threshold = synedrion.share_threshold p.holding.threshold_share;
          old_holders = verifiers_of old;
        })
        (verifiers_of old) old.threshold old.participants

  -- The two runs of one refresh succeed, as those of synedrion do where all take part and no one cheats:
  -- the resharing gives shares of the key, one to every participant, an `AuxGen` is set up for their
  -- verifiers, and its run gives an aux info to every participant.
  pub record Delivers (seed aux_seed : Seed) (old : ThresholdKeyMaterial K (Holding X V Share Aux))
      (p : Participant (Holding X V Share Aux)) : Type 0 where
    pub shares : List (V × Share)
    pub reshared :
        synedrion.run_key_resharing seed (entry_points old p)
        ≡ ok (ok (map (λ e. (e.0, some e.1)) shares))
    pub keyed : All (λ e. HasKey synedrion old.group_public_key.verifying_key e.1) shares
    pub shared : All (λ q. Has shares q.holding.verifier) old.participants
    pub point : Point
    pub sets_up : synedrion.aux_gen (verifiers_of old) ≡ ok point
    pub infos : List (V × Aux)
    pub produced :
        synedrion.run_aux_gen aux_seed (map (λ q. (q.holding.signer, point)) old.participants)
        ≡ ok (ok infos)
    pub informed : All (λ q. Has infos q.holding.verifier) old.participants

  results_of-returns :
      {A : Type 0} (e e' : Str → TssError) (outcome : Result (Result A Str) Str) (a : A)
      → outcome ≡ ok (ok a)
      → results_of synedrion e e' outcome ≡ some (ok a)
  unfolding results_of map_err ◌>>=◌
  results_of-returns e e' outcome a h = rw h refl

  same_keys-returns :
      (k : K) (shares : List (V × Share))
      → All (λ e. HasKey synedrion k e.1) shares
      → same_keys synedrion k shares ≡ some (ok tt)
  unfolding same_keys map_err fail_when ◌>>=◌
  same_keys-returns k [] h = refl
  same_keys-returns k ((v, share) ∷ shares) h =
      rw (h.0, (synedrion.key_eq_iff k k).1 refl) (same_keys-returns k shares h.1)

  first_value-Has :
      {A : Type 0} (entries : List (V × A)) (v : V)
      → Has entries v
      → (a : A) × (first_value entries ≡ some a)
  unfolding map_get
  first_value-Has [] v h = absurd cc
  first_value-Has ((w, a) ∷ entries) v h = (a, refl)

  first_value-HasKey :
      (k : K) (shares : List (V × Share)) (share : Share)
      → All (λ e. HasKey synedrion k e.1) shares
      → first_value shares ≡ some share
      → HasKey synedrion k share
  first_value-HasKey k [] share h e = absurd cc
  first_value-HasKey k ((v, s) ∷ shares) share h e = let same : s ≡ share = cc in rw (← same) h.0

  renewed-returns :
      (shares : List (V × Share)) (infos : List (V × Aux))
      (ps : List (Participant (Holding X V Share Aux)))
      → All (λ p. Has shares p.holding.verifier) ps
      → All (λ p. Has infos p.holding.verifier) ps
      → (qs : List (Participant (Holding X V Share Aux))) × (renewed synedrion shares infos ps
          ≡ some (ok qs))
  unfolding renewed unwrap ◌>>=◌
  renewed-returns shares infos [] h k = ([], refl)
  renewed-returns shares infos (p ∷ ps) ((share, e), h) ((aux, e'), k) =
      let (qs, more) = renewed-returns shares infos ps h k in
      (
        record {
          index = p.index;
          holding = record {
            signer = p.holding.signer;
            verifier = p.holding.verifier;
            threshold_share = share;
            aux_info = aux;
          };
        }
            ∷ qs,
        rw (e, e', more) refl,
      )

  aux_points-returns :
      (error : Str → TssError) (holders : List V) (point : Point)
      (ps : List (Participant (Holding X V Share Aux)))
      → synedrion.aux_gen holders ≡ ok point
      → aux_points synedrion error holders (map (λ q. q.holding.signer) ps)
        ≡ some (ok (map (λ q. (q.holding.signer, point)) ps))
  unfolding aux_points map_err ◌>>=◌
  aux_points-returns error holders point [] e = refl
  aux_points-returns error holders point (p ∷ ps) e =
      rw (e, aux_points-returns error holders point ps e) refl

  -- A refresh returns where there is a first participant and its two runs succeed.
  pub refresh_returns :
      (keccak : Keccak) (seed aux_seed : Seed)
      (old : ThresholdKeyMaterial K (Holding X V Share Aux))
      (p : Participant (Holding X V Share Aux)) (ps : List (Participant (Holding X V Share Aux)))
      → Delivers seed aux_seed old p
      → old.participants ≡ p ∷ ps
      → (new : ThresholdKeyMaterial K (Holding X V Share Aux)) × (do_refresh_via_resharing synedrion
            keccak seed aux_seed old
          ≡ some (ok new))
  unfolding do_refresh_via_resharing unwrap map_err fail_when
  refresh_returns keccak seed aux_seed old p ps d some_one =
      let k = old.group_public_key.verifying_key in
      let signers = map (λ q. (q.holding.signer, d.point)) old.participants in
      let (qs, done) = renewed-returns d.shares d.infos old.participants d.shared d.informed in
      let (share, first) =
        first_value-Has d.shares p.holding.verifier (
          head_of (λ q. Has d.shares q.holding.verifier) old.participants p ps some_one d.shared) in
      let keyed = first_value-HasKey k d.shares share d.keyed first in
      let set_up = aux_points-returns _ (verifiers_of old) d.point old.participants d.sets_up in
      (
        _,
        bind-returns _ p (rw some_one refl) (
            bind-returns _ (map (λ e. (e.0, some e.1)) d.shares)
              (results_of-returns _ _ _ _ d.reshared)
              (bind-returns _ d.shares (every_share-returns d.shares) (
                bind-returns _ share (rw first refl) (
                  bind-returns _ k (rw keyed refl) (
                    bind-returns _ tt (same_keys-returns k d.shares d.keyed) (
                      bind-returns _ tt (rw ((synedrion.key_eq_iff k k).1 refl) refl) (
                        bind-returns _ signers set_up (
                          bind-returns _ d.infos (results_of-returns _ _ _ _ d.produced)
                            (bind-returns _ qs done refl))))))))),
      )
