-- ===== src/Program.antt =====
-- programs/enclavekit: the Anchor program.
pub mod Errors
pub mod Constants
pub mod State
pub mod Events
pub mod Platform
pub mod Precompile
pub mod Authorization
pub mod Instructions
pub mod Entry
pub mod Lifecycle
