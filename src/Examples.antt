-- ===== src/Examples.antt =====
-- Concrete accounts, keys and platform functions, and the theorems applied to them.
pub mod ActionCodec
pub mod Transfers
pub mod Chain
pub mod Authorizations
pub mod History
pub mod Lifecycles
pub mod Payments
pub mod Spenders
pub mod Checks
pub mod Rotations
pub mod Handlers
pub mod Generator
pub mod Generated
pub mod Folder
pub mod Accounts
pub mod Relayed
pub mod Kora
