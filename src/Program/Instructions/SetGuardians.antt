-- ===== src/Program/Instructions/SetGuardians.antt =====
-- programs/enclavekit/src/instructions/set_guardians.rs.
pub mod Replaced
pub mod Named
use enclavekit_anchor.Common.{ℕ, Bytes, Bool, true, false, not, ◌||◌, List, [], ◌∷◌, map}
use mathlib.Core.Option.{none}
use enclavekit_anchor.Encoding.Action
use enclavekit_anchor.Program.Errors.{
  Result, ok, ◌>>=◌, ◌>>◌, require, web_authn_guardian_unsupported,
}
use enclavekit_anchor.Program.State.{
  SmartWallet, Guardian, guardian_slot_from, action_guardian_from, empty_rotation_slot,
}
use enclavekit_anchor.Program.Events.{GuardiansSet}
use enclavekit_anchor.Program.Platform.{Sysvars, Platform, Bank}
use enclavekit_anchor.Program.Authorization.{
  Authorization, verify_enclave_authorization, require_active_key, refund_relayer,
}
use enclavekit_anchor.Program.Instructions.Outcome.{Outcome, Bumps}

pub record SetGuardians : Type 0 where
  pub wallet : SmartWallet
  pub vault : Bytes
  pub relayer : Bytes

-- `matches!(guardian, Guardian::WebAuthn(_))`
abbrev pub is_web_authn : Guardian → Bool
is_web_authn Guardian.none = false
is_web_authn (Guardian.p256 _) = false
is_web_authn (Guardian.web_authn _) = true

-- `guardians.iter().any(..)`
unfoldable pub any_web_authn : List Guardian → Bool
any_web_authn [] = false
any_web_authn (g ∷ gs) = is_web_authn g || any_web_authn gs

-- `SetGuardians::set_guardians`
unfoldable pub set_guardians :
    Platform
    → Sysvars
    → SetGuardians
    → Authorization
    → List Guardian
    → ℕ
    → Bumps
    → Bank
    → Result (Outcome GuardiansSet)
set_guardians p sys self authorization guardians relayer_fee bumps bank = do
  (signer, wallet) ←
      verify_enclave_authorization p sys self.wallet authorization
        (Action.set_guardians (map action_guardian_from guardians)) bumps.wallet bumps.vault
  require_active_key wallet signer
  require (not (any_web_authn guardians)) web_authn_guardian_unsupported
  let wallet = record wallet {
    guardians = map guardian_slot_from guardians;
    rotation = empty_rotation_slot;
  }
  (_, bank) ←
      refund_relayer p wallet self.vault self.relayer relayer_fee authorization.max_relayer_fee bank
  let event : GuardiansSet = record { wallet_id = wallet.wallet_id; guardians = guardians }
  ok (record { event = event; wallet = wallet; bank = bank })
