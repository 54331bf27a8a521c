-- ===== src/Tests/Delivery.antt =====
-- Runs that succeed let the refresh of crates/keymesh-tss/src/lifecycle.rs return.
use key_mesh.Prelude.{ℕ, ◌≡◌, refl, [], ◌∷◌, some}
use key_mesh.Prelude.Outcome.{ok}
use key_mesh.Tss.Key.{ThresholdKeyMaterial}
use key_mesh.Tss.Synedrion.{Holding, map_get}
use key_mesh.Tss.Synedrion.Refresh.Kept.{SameSeats}
use key_mesh.Tss.Synedrion.Refresh.Returns.{Delivers}
use key_mesh.Tss.Errors.{rotation_failed}
use key_mesh.Tss.Lifecycle.{refresh}
use key_mesh.Tss.Synedrion.{ethereum_address_of}
use key_mesh.Tss.Synedrion.{set_of, set_insert}
use key_mesh.Tss.Synedrion.Refresh.{refresh_points}
use key_mesh.Tss.Synedrion.Provision.{lifecycle_refreshes}
use key_mesh.Tests.Provision.{provided, active_key}
use key_mesh.Tests.Parameters.{constant_hash}
use key_mesh.Tests.Resharing.{honest, key, holder}

-- Seeds 4 and 5: every participant gets the share 4, and the AuxGen an empty info.
deliveries : Delivers honest 4 5 (key 2) (record { index = 0; holding = holder 0 2 })
unfolding refresh_points set_of set_insert map_get
deliveries = record {
  shares = (0, 4) ∷ (1, 4) ∷ (2, 4) ∷ [];
  reshared = refl;
  keyed = (refl, (refl, (refl, tt)));
  shared = ((4, refl), ((4, refl), ((4, refl), tt)));
  point = tt;
  sets_up = refl;
  infos = (0, tt) ∷ (1, tt) ∷ (2, tt) ∷ [];
  produced = refl;
  informed = ((tt, refl), ((tt, refl), ((tt, refl), tt)));
}

lifecycle_refreshes_example :
    (m' : ThresholdKeyMaterial ℕ (Holding ℕ ℕ ℕ (Unit {0}))) × (refresh constant_hash provided
        (4, 5, 6)
        active_key
      ≡ (ok tt, record active_key { material = some m' }))
    × SameSeats honest 5 (key 2).participants m'.participants
unfolding ethereum_address_of
lifecycle_refreshes_example =
    lifecycle_refreshes honest constant_hash (rotation_failed []) (4, 5, 6) active_key (key 2)
      (record { index = 0; holding = holder 0 2 })
      (record { index = 1; holding = holder 1 2 } ∷ record { index = 2; holding = holder 2 2 } ∷ [])
      deliveries refl refl refl refl refl
