-- ===== src/Program/Instructions/ProposeRotation.antt =====
-- programs/enclavekit/src/instructions/propose_rotation.rs.
pub mod Proposed
use enclavekit_anchor.Common.{ℕ, ℤ, Bytes, false, not, ◌||◌, bytes_eq, ◌==◌, if◌then◌else◌}
use mathlib.Core.Option.{Option, none, some}
use enclavekit_anchor.Encoding.Action
use enclavekit_anchor.Program.Errors.{
  Result, ok, ◌>>=◌, ◌>>◌, require, ok_or, enclave_kit, invalid_new_key, not_a_guardian,
  rotation_slot_taken,
}
use enclavekit_anchor.Program.State.{
  SmartWallet, empty_rotation_slot, get_rotation, new_rotation, p256_guardian, PendingRotation,
  opens_at, is_expired, zero_key,
}
use enclavekit_anchor.Program.Events.{RotationProposed, KeyRotated}
use enclavekit_anchor.Program.Platform.{Sysvars, Platform, Bank}
use enclavekit_anchor.Program.Authorization.{
  Authorization, verify_enclave_authorization, refund_relayer,
}
use enclavekit_anchor.Program.Instructions.Outcome.{Outcome}

-- What a proposal did, depending on who signed it.
pub data Proposal : Type 0 where
  rotated : KeyRotated → Proposal
  pending : RotationProposed → Proposal

pub record ProposeRotation : Type 0 where
  pub wallet : SmartWallet
  pub vault : Bytes
  pub relayer : Bytes

-- `if let Some(pending) = self.wallet.rotation.get() { require!(..) }`
unfoldable pub require_slot_free : Option PendingRotation → ℕ → ℤ → Result (Unit {0})
require_slot_free none slot now = ok tt
require_slot_free (some held) slot now =
    require (held.proposed_by == slot || is_expired held now) rotation_slot_taken

-- The branch of the active key.
unfoldable pub rotate_now : SmartWallet → Bytes → Proposal × SmartWallet
rotate_now wallet new_key = (
  rotated (record { wallet_id = wallet.wallet_id; new_key = new_key; recovery = false }),
  record wallet { active_key = new_key; attested = false; rotation = empty_rotation_slot },
)

-- The branch of a guardian. A slot is below 3, so `slot as u8` keeps it.
unfoldable pub propose_as_guardian :
    Sysvars → SmartWallet → Bytes → Bytes → Result (Proposal × SmartWallet)
unfolding require_slot_free
propose_as_guardian sys wallet signer new_key = do
  slot ← ok_or (p256_guardian wallet signer) (enclave_kit not_a_guardian)
  now ← sys.unix_timestamp
  require_slot_free (get_rotation wallet.rotation) slot now
  let proposal : PendingRotation = record {
    new_key = new_key;
    proposed_at = now;
    proposed_by = slot;
  }
  let event : RotationProposed = record {
    wallet_id = wallet.wallet_id;
    new_key = new_key;
    guardian = signer;
    opens_at = opens_at proposal;
  }
  ok (pending event, record wallet { rotation = new_rotation proposal })

-- `ProposeRotation::propose`
unfoldable pub propose :
    Platform
    → Sysvars
    → ProposeRotation
    → Authorization
    → Bytes
    → ℕ
    → Bank
    → Result (Outcome Proposal)
unfolding rotate_now propose_as_guardian
propose p sys self authorization new_key relayer_fee bank = do
  require (not (bytes_eq new_key zero_key)) invalid_new_key
  (signer, wallet) ←
      verify_enclave_authorization p sys self.wallet authorization (Action.propose_rotation new_key)
        self.wallet.state_bump self.wallet.vault_bump
  (proposal, wallet) ←
      if bytes_eq signer wallet.active_key
      then ok (rotate_now wallet new_key)
      else propose_as_guardian sys wallet signer new_key
  (_, bank) ←
      refund_relayer p wallet self.vault self.relayer relayer_fee authorization.max_relayer_fee bank
  ok (record { event = proposal; wallet = wallet; bank = bank })
