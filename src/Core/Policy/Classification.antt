-- ===== src/Core/Policy/Classification.antt =====
-- The classification of crates/keymesh-core/src/policy/mod.rs against its rules.
use key_mesh.Prelude.{ℕ, ◌≤◌, ◌<◌, ◌≡◌, ◌≢◌, ◌↔◌, ◌⊎◌, Bool, true, length, arith}
use key_mesh.Core.Policy.{device_plus_guardians, PolicyConfig, TransactionView, classify}

-- The calldata begins with a restricted selector: it has four bytes at least.
abbrev pub SelectorHit : Bool → TransactionView → Type 0
SelectorHit selector_restricted tx = (4 ≤ length tx.calldata) × (selector_restricted ≡ true)

-- With what the caller says of the manager, the selector and the destination, `classify` asks for guardians
-- exactly when a restricted selector is called on the policy manager, or when the wallet is configured and
-- the selector is restricted, the destination is restricted, the value is strictly above the threshold, or
-- the default asks for guardians.
pub classify_iff :
    (config : PolicyConfig) (to_manager selector destination : Bool) (tx : TransactionView)
    → (classify config to_manager selector destination tx ≡ device_plus_guardians) ↔ (
        ((to_manager ≡ true) × SelectorHit selector tx)
        ⊎ ((config.version ≢ 0)
            × (SelectorHit selector tx
                ⊎ ((destination ≡ true)
                    ⊎ ((config.value_threshold_wei < tx.value_wei)
                        ⊎ (config.default_mode ≡ device_plus_guardians))))))
unfolding classify
classify_iff config to_manager selector destination tx = (λ h. ground arith, λ h. ground arith)

abbrev Implies : Bool → Bool → Type 0
Implies a b = a ≡ true → b ≡ true

-- More restrictions, a higher value and a lower threshold never turn guardians off.
pub classify_mono :
    (config : PolicyConfig) (m s d m' s' d' : Bool) (tx : TransactionView) (value threshold : ℕ)
    → Implies m m'
    → Implies s s'
    → Implies d d'
    → tx.value_wei ≤ value
    → threshold ≤ config.value_threshold_wei
    → classify config m s d tx ≡ device_plus_guardians
    → classify
        (record config { value_threshold_wei = threshold })
        m'
        s'
        d'
        (record tx { value_wei = value })
      ≡ device_plus_guardians
unfolding classify
classify_mono config m s d m' s' d' tx value threshold hm hs hd hv ht h = ground arith
