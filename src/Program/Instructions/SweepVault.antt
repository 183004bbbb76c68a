-- ===== src/Program/Instructions/SweepVault.antt =====
-- programs/enclavekit/src/instructions/sweep_vault.rs.
pub mod Swept
pub mod Vault
use enclavekit_anchor.Common.{ℕ, ◌-◌, min, Bytes, leb}
use enclavekit_anchor.Encoding.Action
use enclavekit_anchor.Program.Errors.{Result, ok, ◌>>=◌, ◌>>◌, require, insufficient_vault_balance}
use enclavekit_anchor.Program.State.{SmartWallet}
use enclavekit_anchor.Program.Events.{VaultSwept}
use enclavekit_anchor.Program.Platform.{Sysvars, Platform, Bank}
use enclavekit_anchor.Program.Authorization.{
  Authorization, verify_enclave_authorization, require_active_key, transfer_from_vault,
  refund_relayer,
}
use enclavekit_anchor.Program.Instructions.Outcome.{Outcome, Bumps}

pub record SweepVault : Type 0 where
  pub wallet : SmartWallet
  pub vault : Bytes
  pub to : Bytes
  pub relayer : Bytes

-- `SweepVault::sweep`
unfoldable pub sweep :
    Platform → Sysvars → SweepVault → Authorization → ℕ → Bumps → Bank → Result (Outcome VaultSwept)
sweep p sys self authorization relayer_fee bumps bank = do
  (signer, wallet) ←
      verify_enclave_authorization p sys self.wallet authorization (Action.sweep_vault self.to)
        bumps.wallet bumps.vault
  require_active_key wallet signer
  let refund = min relayer_fee authorization.max_relayer_fee
  let balance = bank self.vault
  require (leb refund balance) insufficient_vault_balance
  let lamports = balance - refund
  bank ← transfer_from_vault p wallet self.vault self.to lamports bank
  (_, bank) ←
      refund_relayer p wallet self.vault self.relayer relayer_fee authorization.max_relayer_fee bank
  let event : VaultSwept = record {
    wallet_id = wallet.wallet_id;
    to = self.to;
    lamports = lamports;
    relayer_fee = refund;
  }
  ok (record { event = event; wallet = wallet; bank = bank })
