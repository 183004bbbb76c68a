-- ===== src/Kora.antt =====
-- programs/enclavekit/examples/kora_transfer_sol.rs: one transfer through a Kora relayer. The JSON-RPC
-- replies, the environment and the clock are arguments.
pub mod Seed
pub mod Plan
pub mod Confirm
pub mod Json
pub mod Rpc
pub mod Crates
pub mod Calls
pub mod TransferRequest
pub mod Main
