-- ===== src/Program/Instructions/CancelRotation.antt =====
-- programs/enclavekit/src/instructions/cancel_rotation.rs.
pub mod Cancelled
use enclavekit_anchor.Common.{ℕ, Bytes}
use enclavekit_anchor.Encoding.Action
use enclavekit_anchor.Program.Errors.{
  Result, ok, ◌>>=◌, ◌>>◌, ok_or, enclave_kit, no_pending_rotation,
}
use enclavekit_anchor.Program.State.{SmartWallet, take_rotation}
use enclavekit_anchor.Program.Events.{RotationCancelled}
use enclavekit_anchor.Program.Platform.{Sysvars, Platform, Bank}
use enclavekit_anchor.Program.Authorization.{
  Authorization, verify_enclave_authorization, require_active_key, refund_relayer,
}
use enclavekit_anchor.Program.Instructions.Outcome.{Outcome}

pub record CancelRotation : Type 0 where
  pub wallet : SmartWallet
  pub vault : Bytes
  pub relayer : Bytes

-- `CancelRotation::cancel`
unfoldable pub cancel :
    Platform
    → Sysvars
    → CancelRotation
    → Authorization
    → ℕ
    → Bank
    → Result (Outcome RotationCancelled)
cancel p sys self authorization relayer_fee bank = do
  (signer, wallet) ←
      verify_enclave_authorization p sys self.wallet authorization Action.cancel_rotation
        self.wallet.state_bump self.wallet.vault_bump
  require_active_key wallet signer
  let (held, emptied) = take_rotation wallet.rotation
  let wallet = record wallet { rotation = emptied }
  cancelled ← ok_or held (enclave_kit no_pending_rotation)
  (_, bank) ←
      refund_relayer p wallet self.vault self.relayer relayer_fee authorization.max_relayer_fee bank
  let event : RotationCancelled = record {
    wallet_id = wallet.wallet_id;
    new_key = cancelled.new_key;
  }
  ok (record { event = event; wallet = wallet; bank = bank })
