-- ===== src/Encoding.antt =====
-- crates/enclavekit-encoding: what the program and the SDKs agree on byte for byte.
-- The constants of constants.rs; the children model the other files of the crate.
pub mod Constants
pub mod Action
pub mod Borsh
pub mod Preimage
pub mod Wallet
pub mod Layout
