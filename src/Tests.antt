-- ===== src/Tests.antt =====
-- The theorems at concrete inputs, and runs of the modelled functions.
mod Parameters
mod Codec
mod Transactions
mod Recoveries
mod Policies
mod Signatures
mod Governance
mod Governed
mod Keys
mod Messages
mod Providers
mod Residues
mod Prototype
mod Resharing
mod Provision
mod Delivery
mod Storages
