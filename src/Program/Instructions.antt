-- ===== src/Program/Instructions.antt =====
-- programs/enclavekit/src/instructions: one child for each instruction's accounts and method.
pub mod Payers
pub mod Spenders
pub mod Ended
pub mod Outcome
pub mod ActiveKey
pub mod TransferSol
pub mod SweepVault
pub mod SetGuardians
pub mod CancelRotation
pub mod ProposeRotation
pub mod ConfirmRotation
pub mod CloseWallet
