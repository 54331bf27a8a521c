-- ===== src/Core/Policy.antt =====
-- crates/keymesh-core/src/policy/mod.rs: which authorization a transaction needs.
--
-- The view of a transaction keeps its recipient, which the classification does not read; the caller
-- resolves the restricted sets. `data` is called `calldata`.
pub mod Classification
pub mod Administration
use key_mesh.Prelude.{
  ℕ, zero, suc, Bool, true, false, not, ◌&&◌, List, Option, none, some, leb, ltb, ◌==◌,
  if◌then◌else◌, length,
}

pub data AuthorizationMode : Type 0 where
  device_only device_plus_guardians : AuthorizationMode

-- `mode as u8`.
unfoldable pub mode_discriminant : AuthorizationMode → ℕ
mode_discriminant device_only = 0
mode_discriminant device_plus_guardians = 1

unfoldable pub from_discriminant : ℕ → Option AuthorizationMode
from_discriminant value =
    if value == 0 then some device_only else if value == 1 then some device_plus_guardians else none

pub record PolicyConfig : Type 0 where
  pub default_mode : AuthorizationMode
  pub value_threshold_wei : ℕ
  pub guardian_approvals_required : ℕ
  pub version : ℕ

unfoldable pub unconfigured : PolicyConfig
unconfigured = record {
  default_mode = device_only;
  value_threshold_wei = 0;
  guardian_approvals_required = 0;
  version = 0;
}

unfoldable pub is_configured : PolicyConfig → Bool
is_configured config = not (config.version == 0)

unfoldable pub effective_request_quorum : PolicyConfig → ℕ
effective_request_quorum config =
    if config.guardian_approvals_required == 0 then 1 else config.guardian_approvals_required

pub record TransactionView : Type 0 where
  pub to : List ℕ
  pub value_wei : ℕ
  pub calldata : List ℕ

unfoldable pub classify :
    (config : PolicyConfig) (to_is_policy_manager selector_restricted destination_restricted : Bool)
    (tx : TransactionView)
    → AuthorizationMode
unfolding is_configured
classify config to_is_policy_manager selector_restricted destination_restricted tx =
    let has_selector = leb 4 (length tx.calldata) in
    if to_is_policy_manager && (has_selector && selector_restricted)
    then device_plus_guardians
    else if not (is_configured config)
    then device_only
    else if has_selector && selector_restricted
    then device_plus_guardians
    else if destination_restricted
    then device_plus_guardians
    else if ltb config.value_threshold_wei tx.value_wei
    then device_plus_guardians
    else config.default_mode

unfoldable pub is_authorization_version_valid : ℕ → ℕ → Bool
is_authorization_version_valid request_version current_version = request_version == current_version
