-- ===== src/Tests/Resharing.antt =====
-- The set-up, the refresh and the rotation of crates/keymesh-tss, with runs that give each new holder a share.
use key_mesh.Prelude.{
  ℕ, ◌≤◌, ◌<◌, ◌≡◌, refl, false, List, [], ◌∷◌, Option, none, some, replicate, ◌==◌, ==_iff, ltb,
  length,
}
use key_mesh.Prelude.Bytes.{bytes_eq}
use key_mesh.Prelude.Outcome.{ok}
use key_mesh.Prelude.Panics.{◌>>=◌, unwrap, unwrap_result, map_err, ok_or, fail_when, assert}
use key_mesh.Prelude.Text.{Str, text, decimal}
use key_mesh.Tss.Key.{ThresholdKeyMaterial}
use key_mesh.Tss.Synedrion.{
  Holding, KeyResharing, Synedrion, set_of, set_insert, set_contains, map_insert, map_get,
  results_of, aux_points, group_key_of, ethereum_address_of,
}
use key_mesh.Tss.Synedrion.Refresh.{
  every_share, same_keys, refresh_points, renewed, do_refresh_via_resharing,
}
use key_mesh.Tss.Synedrion.Refresh.Kept.{SameSeats, refresh-kept}
use key_mesh.Tss.Synedrion.Seating.{alias, name_to_old_idx, get_name, seat_for, seats_from}
use key_mesh.Tss.Synedrion.Rotation.{
  old_points, fresh_points, collect_shares, assembled, hand_over, do_rotation_via_resharing,
}
use key_mesh.Tss.Synedrion.Rotation.Handover.{Seated, rotation-kept}
use key_mesh.Tss.Synedrion.Setup.{
  make_signers, init_points, expected_shares, old_and_new, only_new, key_at, all_same_key, founders,
  found, setup_2of3_with_rng,
}
use key_mesh.Tests.Parameters.{constant_hash}

abbrev pub given : Option ℕ → List (ℕ × KeyResharing ℕ ℕ ℕ) → List (ℕ × Option ℕ)
given share [] = []
given share ((signer, point) ∷ points) =
    (signer, elim point.new_holder [ none ↦ none | some h ↦ share ]) ∷ given share points

abbrev pub each : {A B : Type 0} → B → List (ℕ × A) → List (ℕ × B)
each b [] = []
each b ((signer, a) ∷ points) = (signer, b) ∷ each b points

-- Signers and verifiers are numbers, a share is the number of its run, and the key is 5.
abbrev pub honest : Synedrion ℕ ℕ ℕ ℕ (Unit {0}) (Unit {0}) (Unit {0}) ℕ ℕ
honest = record {
  key_eq = ◌==◌;
  key_eq_iff = ==_iff;
  encoded_point = λ k compressed. replicate 65 k;
  verifier_eq = ◌==◌;
  verifier_lt = ltb;
  debug_verifier = λ v. [];
  signer = λ i. i;
  verifying_key = λ x. x;
  share_verifying_key = λ share. ok 5;
  share_threshold = λ share. 2;
  from_key_share = λ whole. whole;
  key_init = λ holders. ok tt;
  run_key_init = λ seed points. ok (ok (each seed points));
  run_key_resharing = λ seed points. ok (ok (given (some seed) points));
  aux_gen = λ holders. ok tt;
  run_aux_gen = λ seed points. ok (ok (each tt points));
}

abbrev pub holder : ℕ → ℕ → Holding ℕ ℕ ℕ (Unit {0})
holder signer share = record {
  signer = signer;
  verifier = signer;
  threshold_share = share;
  aux_info = tt;
}

-- The key after a run with this number.
abbrev pub key : ℕ → ThresholdKeyMaterial ℕ (Holding ℕ ℕ ℕ (Unit {0}))
key run = record {
  participants =
      record { index = 0; holding = holder 0 run }
      ∷ record { index = 1; holding = holder 1 run }
      ∷ record { index = 2; holding = holder 2 run }
      ∷ [];
  group_public_key = record { verifying_key = 5; ethereum_address = replicate 20 0 };
  threshold = 2;
  total = 3;
}

sets_up : setup_2of3_with_rng honest constant_hash 1 2 3 ≡ some (ok (key 2))
unfolding setup_2of3_with_rng make_signers init_points expected_shares old_and_new only_new key_at
    all_same_key founders found set_of set_insert map_get results_of aux_points group_key_of
    ethereum_address_of ◌>>=◌ unwrap unwrap_result map_err assert
sets_up = refl

refreshes : do_refresh_via_resharing honest constant_hash 4 5 (key 2) ≡ some (ok (key 4))
unfolding do_refresh_via_resharing every_share same_keys refresh_points renewed set_of set_insert
    map_get results_of aux_points group_key_of ethereum_address_of ◌>>=◌ unwrap map_err ok_or
    fail_when
refreshes = refl

refresh-kept_example :
    ((key 4).group_public_key.verifying_key ≡ (key 2).group_public_key.verifying_key)
    × ((key 4).group_public_key.ethereum_address ≡ ethereum_address_of honest constant_hash 5)
    × ((key 4).threshold ≡ (key 2).threshold)
    × ((key 4).total ≡ (key 2).total)
    × SameSeats honest 5 (key 2).participants (key 4).participants
refresh-kept_example = refresh-kept honest constant_hash 4 5 (key 2) (key 4) refreshes

-- A and C stay, and D is new.
abbrev rotated_key : ThresholdKeyMaterial ℕ (Holding ℕ ℕ ℕ (Unit {0}))
rotated_key = record (key 2) {
  participants =
      record { index = 0; holding = holder 0 6 }
      ∷ record { index = 1; holding = holder 2 6 }
      ∷ record { index = 2; holding = holder 102 6 }
      ∷ [];
}

abbrev ids : List Str
ids = (b'A' ∷ []) ∷ (b'C' ∷ []) ∷ (b'D' ∷ []) ∷ []

rotates : do_rotation_via_resharing honest constant_hash 6 7 (key 2) ids 2 ≡ some (ok rotated_key)
unfolding do_rotation_via_resharing name_to_old_idx alias get_name seat_for seats_from bytes_eq text
    hand_over old_points fresh_points collect_shares assembled set_of set_insert set_contains
    map_insert map_get results_of aux_points group_key_of ethereum_address_of ◌>>=◌ unwrap map_err
    ok_or fail_when
rotates = refl

rotation-kept_example :
    (rotated_key.group_public_key.verifying_key ≡ (key 2).group_public_key.verifying_key)
    × (rotated_key.group_public_key.ethereum_address ≡ ethereum_address_of honest constant_hash 5)
    × (rotated_key.threshold ≡ 2)
    × (rotated_key.total ≡ length ids)
    × (2 ≤ length ids)
    × (0 < length ids)
    × Seated honest (name_to_old_idx 0 3 []) (key 2).participants 0 ids rotated_key.participants
rotation-kept_example = rotation-kept honest constant_hash 6 7 (key 2) rotated_key ids 2 rotates

abbrev twice : List Str
twice = (b'A' ∷ []) ∷ (b'P' ∷ b'0' ∷ []) ∷ []

-- "A" and "P0" seat one participant twice.
one_participant_twice :
    seats_from honest (name_to_old_idx 0 3 []) (key 2).participants 0 twice
    ≡ some (
        ok (
          record { fresh = false; signer = 0; verifier = 0 }
          ∷ record { fresh = false; signer = 0; verifier = 0 }
          ∷ []))
unfolding name_to_old_idx alias get_name seat_for seats_from bytes_eq text decimal ◌>>=◌ unwrap
one_participant_twice = refl
