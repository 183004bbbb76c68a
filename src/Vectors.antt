-- ===== src/Vectors.antt =====
-- crates/gen-vectors/src/main.rs: the conformance vectors, as the records that are written as JSON.
pub mod Text
pub mod Inputs
pub mod Client
pub mod Tools
pub mod Key
pub mod Actions
pub mod Instructions
pub mod Transaction
pub mod States
pub mod Files
