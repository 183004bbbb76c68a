-- ===== src/Program/Lifecycle.antt =====
-- The life of a wallet over the instructions: the invariant that each keeps, and the sequences of
-- instructions that a wallet goes through.
pub mod Preservation
pub mod Vault
pub mod Steps
pub mod Invariant
pub mod Nonce
pub mod Authority
pub mod Recovery
pub mod Recovers
pub mod Spec
