-- ===== src/Tests/Policies.antt =====
-- crates/keymesh-core/src/policy/mod.rs on a concrete policy.
use key_mesh.Prelude.{◌≡◌, refl, inl, inr, true, false, ◌↔◌, ◌⊎◌, ◌&&◌, leb, [], replicate, arith}
use key_mesh.Core.Policy.{
  device_only, device_plus_guardians, PolicyConfig, TransactionView, classify, unconfigured,
}
use key_mesh.Core.Policy.Classification.{classify_iff}
use key_mesh.Core.Policy.Administration.{documented, classify-documented}

abbrev one_ether : PolicyConfig
one_ether = record {
  default_mode = device_only;
  value_threshold_wei = 1_000_000_000_000_000_000;
  guardian_approvals_required = 2;
  version = 1;
}

abbrev payment : TransactionView
payment = record { to = replicate 20 1; value_wei = 1_000_000_000_000_000_001; calldata = [] }

-- One wei above the threshold.
classify_iff_example : classify one_ether false false false payment ≡ device_plus_guardians
classify_iff_example =
    (classify_iff one_ether false false false payment).1
      (inr (omega arith, inr (inr (inl (omega arith)))))

at_threshold :
    classify one_ether false false false (record payment { value_wei = 1_000_000_000_000_000_000 })
    ≡ device_only
unfolding classify
at_threshold = refl

above_threshold : classify one_ether false false false payment ≡ device_plus_guardians
unfolding classify
above_threshold = refl

-- Four bytes of calldata, of a selector of administration that the wallet has not restricted.
abbrev administration : TransactionView
administration = record { to = replicate 20 2; value_wei = 0; calldata = replicate 4 9 }

classify-documented_example :
    (classify unconfigured true false false administration
      ≡ documented unconfigured true true false false administration)
    ↔ ((true && leb 4 4 ≡ false) ⊎ (false ≡ true))
unfolding unconfigured
classify-documented_example =
    classify-documented unconfigured true true false false administration refl

device_alone : classify unconfigured true false false administration ≡ device_only
unfolding classify unconfigured
device_alone = refl

guardians_documented :
    documented unconfigured true true false false administration ≡ device_plus_guardians
unfolding documented unconfigured
guardians_documented = refl
