-- ===== src/Program/Instructions/TransferSol.antt =====
-- programs/enclavekit/src/instructions/transfer_sol.rs.
pub mod Transferred
pub mod Vault
use enclavekit_anchor.Common.{ℕ, Bytes, leb}
use enclavekit_anchor.Encoding.Action
use enclavekit_anchor.Program.Errors.{Result, ok, ◌>>=◌, ◌>>◌, require, insufficient_vault_balance}
use enclavekit_anchor.Program.State.{SmartWallet}
use enclavekit_anchor.Program.Events.{SolTransferred}
use enclavekit_anchor.Program.Platform.{Sysvars, Platform, Bank}
use enclavekit_anchor.Program.Authorization.{
  Authorization, checked_add, verify_enclave_authorization, require_active_key, transfer_from_vault,
  refund_relayer,
}
use enclavekit_anchor.Program.Instructions.Outcome.{Outcome, Bumps}

-- The accounts that the method reads; `wallet` is the state as loaded.
pub record TransferSol : Type 0 where
  pub wallet : SmartWallet
  pub vault : Bytes
  pub to : Bytes
  pub relayer : Bytes

-- `TransferSol::transfer`
unfoldable pub transfer :
    Platform
    → Sysvars
    → TransferSol
    → Authorization
    → ℕ
    → ℕ
    → Bumps
    → Bank
    → Result (Outcome SolTransferred)
transfer p sys self authorization lamports relayer_fee bumps bank = do
  (signer, wallet) ←
      verify_enclave_authorization p sys self.wallet authorization
        (Action.transfer_sol self.to lamports) bumps.wallet bumps.vault
  require_active_key wallet signer
  rent ← sys.rent_minimum
  sum ← checked_add lamports authorization.max_relayer_fee
  required ← checked_add sum rent
  require (leb required (bank self.vault)) insufficient_vault_balance
  bank ← transfer_from_vault p wallet self.vault self.to lamports bank
  (refund, bank) ←
      refund_relayer p wallet self.vault self.relayer relayer_fee authorization.max_relayer_fee bank
  let event : SolTransferred = record {
    wallet_id = wallet.wallet_id;
    to = self.to;
    lamports = lamports;
    relayer_fee = refund;
  }
  ok (record { event = event; wallet = wallet; bank = bank })
