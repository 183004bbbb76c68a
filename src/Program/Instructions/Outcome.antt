-- ===== src/Program/Instructions/Outcome.antt =====
-- What a method that succeeds leaves: its event, the wallet as written, and the lamports. A method
-- that fails leaves nothing, since the runtime reverts the transaction.
use enclavekit_anchor.Common.{ℕ}
use enclavekit_anchor.Program.State.{SmartWallet}
use enclavekit_anchor.Program.Platform.{Bank}

pub record Outcome (E : Type 0) : Type 0 where
  pub event : E
  pub wallet : SmartWallet
  pub bank : Bank

-- The bumps that Anchor found for the accounts it derives.
pub record Bumps : Type 0 where
  pub wallet : ℕ
  pub vault : ℕ
