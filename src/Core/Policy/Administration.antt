-- ===== src/Core/Policy/Administration.antt =====
-- The rule of docs/protocol/policies.md on the administration of policies, beside the classification of
-- crates/keymesh-core/src/policy/mod.rs.
use key_mesh.Prelude.{◌≡◌, ◌↔◌, ◌⊎◌, Bool, false, not, ◌&&◌, leb, ltb, if◌then◌else◌, length, arith}
use key_mesh.Core.Policy.{
  AuthorizationMode, device_only, device_plus_guardians, PolicyConfig, is_configured,
  TransactionView, classify,
}

-- The classification precedence that the document gives. Whether the selector is one that mutates the
-- policy manager, `admin`, is apart from whether the wallet restricted it.
unfoldable pub documented :
    (config : PolicyConfig) (to_manager admin selector destination : Bool) (tx : TransactionView)
    → AuthorizationMode
documented config to_manager admin selector destination tx =
    let has_selector = leb 4 (length tx.calldata) in
    if to_manager && (has_selector && admin)
    then device_plus_guardians
    else if not (is_configured config)
    then device_only
    else if has_selector && selector
    then device_plus_guardians
    else if destination
    then device_plus_guardians
    else if ltb config.value_threshold_wei tx.value_wei
    then device_plus_guardians
    else config.default_mode

-- For an unconfigured wallet, `classify` gives what the document says exactly where the transaction does not
-- call the policy manager with a selector, or the caller says of the selector that it is restricted just
-- if it is one of administration.
pub classify-documented :
    (config : PolicyConfig) (to_manager admin selector destination : Bool) (tx : TransactionView)
    → config.version ≡ 0
    → (classify config to_manager selector destination tx
        ≡ documented config to_manager admin selector destination tx)
      ↔ ((to_manager && leb 4 (length tx.calldata) ≡ false) ⊎ (selector ≡ admin))
unfolding classify documented is_configured
classify-documented config to_manager admin selector destination tx v =
    (λ h. ground (arith, h), λ h. ground (arith, h))
