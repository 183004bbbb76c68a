-- ===== src/Program/Instructions/CloseWallet.antt =====
-- programs/enclavekit/src/instructions/close_wallet.rs.
pub mod Closed
pub mod Vault
use enclavekit_anchor.Common.{ℕ, ◌-◌, min, Bytes}
use enclavekit_anchor.Encoding.Action
use enclavekit_anchor.Program.Errors.{Result, ok, ◌>>=◌, ◌>>◌}
use enclavekit_anchor.Program.State.{SmartWallet}
use enclavekit_anchor.Program.Events.{WalletClosed}
use enclavekit_anchor.Program.Platform.{Sysvars, Platform, Bank}
use enclavekit_anchor.Program.Authorization.{
  Authorization, verify_enclave_authorization, require_active_key, transfer_from_vault,
}
use enclavekit_anchor.Program.Instructions.Outcome.{Outcome}

pub record CloseWallet : Type 0 where
  pub wallet : SmartWallet
  pub vault : Bytes
  pub to : Bytes
  pub relayer : Bytes

-- `CloseWallet::close`. The state is closed by the account's `close = relayer` afterwards.
unfoldable pub close :
    Platform → Sysvars → CloseWallet → Authorization → ℕ → Bank → Result (Outcome WalletClosed)
close p sys self authorization relayer_fee bank = do
  (signer, wallet) ←
      verify_enclave_authorization p sys self.wallet authorization (Action.close_wallet self.to)
        self.wallet.state_bump self.wallet.vault_bump
  require_active_key wallet signer
  let balance = bank self.vault
  let refund = min (min relayer_fee authorization.max_relayer_fee) balance
  let lamports = balance - refund
  bank ← transfer_from_vault p wallet self.vault self.to lamports bank
  bank ← transfer_from_vault p wallet self.vault self.relayer refund bank
  let event : WalletClosed = record {
    wallet_id = wallet.wallet_id;
    to = self.to;
    lamports = lamports;
    relayer_fee = refund;
  }
  ok (record { event = event; wallet = wallet; bank = bank })
