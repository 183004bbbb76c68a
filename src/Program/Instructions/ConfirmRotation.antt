-- ===== src/Program/Instructions/ConfirmRotation.antt =====
-- programs/enclavekit/src/instructions/confirm_rotation.rs.
pub mod Window
pub mod Timelock
use enclavekit_anchor.Common.{true, false, not, leb_ℤ}
use enclavekit_anchor.Encoding.Action
use enclavekit_anchor.Program.Errors.{
  Result, ok, ◌>>=◌, ◌>>◌, require, ok_or, enclave_kit, no_pending_rotation, rotation_too_early,
  rotation_expired,
}
use enclavekit_anchor.Program.State.{
  SmartWallet, empty_rotation_slot, get_rotation, opens_at, is_expired,
}
use enclavekit_anchor.Program.Events.{KeyRotated}
use enclavekit_anchor.Program.Platform.{Sysvars, Bank}
use enclavekit_anchor.Program.Instructions.Outcome.{Outcome}

pub record ConfirmRotation : Type 0 where
  pub wallet : SmartWallet

-- `ConfirmRotation::confirm`
unfoldable pub confirm : Sysvars → ConfirmRotation → Bank → Result (Outcome KeyRotated)
confirm sys self bank = do
  pending ← ok_or (get_rotation self.wallet.rotation) (enclave_kit no_pending_rotation)
  now ← sys.unix_timestamp
  require (leb_ℤ (opens_at pending) now) rotation_too_early
  require (not (is_expired pending now)) rotation_expired
  let wallet = record self.wallet {
    active_key = pending.new_key;
    attested = false;
    rotation = empty_rotation_slot;
  }
  let event : KeyRotated = record {
    wallet_id = wallet.wallet_id;
    new_key = pending.new_key;
    recovery = true;
  }
  ok (record { event = event; wallet = wallet; bank = bank })
