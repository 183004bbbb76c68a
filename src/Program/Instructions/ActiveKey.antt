-- ===== src/Program/Instructions/ActiveKey.antt =====
-- The instructions that only the active key may authorise.
use enclavekit_anchor.Common.{ℕ, List, map, Bytes, bytes_eq_ne, ◌≡◌, ◌≢◌, refl}
use enclavekit_anchor.Encoding.Action.{Action}
use enclavekit_anchor.Program.Errors.{ok, err, enclave_kit, key_mismatch}
use enclavekit_anchor.Program.State.{SmartWallet, Guardian, action_guardian_from}
use enclavekit_anchor.Program.Platform.{Sysvars, Platform, Bank}
use enclavekit_anchor.Program.Authorization.{
  Authorization, verify_enclave_authorization, require_active_key,
}
use enclavekit_anchor.Program.Instructions.Outcome.{Bumps}
use enclavekit_anchor.Program.Instructions.TransferSol.{TransferSol, transfer}
use enclavekit_anchor.Program.Instructions.SweepVault.{SweepVault, sweep}
use enclavekit_anchor.Program.Instructions.SetGuardians.{SetGuardians, set_guardians}
use enclavekit_anchor.Program.Instructions.CancelRotation.{CancelRotation, cancel}
use enclavekit_anchor.Program.Instructions.CloseWallet.{CloseWallet, close}

-- A request for one of the five, with its action and the bumps that its check is given.
pub data Request : Type 0 where
  transfers : TransferSol → ℕ → Bumps → Request
  sweeps : SweepVault → Bumps → Request
  replaces : SetGuardians → List Guardian → Bumps → Request
  cancels : CancelRotation → Request
  closes : CloseWallet → Request

module _ (p : Platform) (sys : Sysvars) (auth : Authorization) (relayer_fee : ℕ) (bank : Bank) where
  -- The check of the request's signature answers this key and this wallet.
  abbrev pub IsSignedBy : Request → Bytes → SmartWallet → Type 0
  IsSignedBy (transfers self lamports bumps) signer before =
      verify_enclave_authorization p sys self.wallet auth (Action.transfer_sol self.to lamports)
        bumps.wallet bumps.vault
      ≡ ok (signer, before)
  IsSignedBy (sweeps self bumps) signer before =
      verify_enclave_authorization p sys self.wallet auth (Action.sweep_vault self.to) bumps.wallet
        bumps.vault
      ≡ ok (signer, before)
  IsSignedBy (replaces self guardians bumps) signer before =
      verify_enclave_authorization p sys self.wallet auth
        (Action.set_guardians (map action_guardian_from guardians)) bumps.wallet bumps.vault
      ≡ ok (signer, before)
  IsSignedBy (cancels self) signer before =
      verify_enclave_authorization p sys self.wallet auth Action.cancel_rotation
        self.wallet.state_bump self.wallet.vault_bump
      ≡ ok (signer, before)
  IsSignedBy (closes self) signer before =
      verify_enclave_authorization p sys self.wallet auth (Action.close_wallet self.to)
        self.wallet.state_bump self.wallet.vault_bump
      ≡ ok (signer, before)

  -- The request fails with `KeyMismatch`.
  abbrev pub IsKeyMismatch : Request → Type 0
  IsKeyMismatch (transfers self lamports bumps) =
      transfer p sys self auth lamports relayer_fee bumps bank ≡ err (enclave_kit key_mismatch)
  IsKeyMismatch (sweeps self bumps) =
      sweep p sys self auth relayer_fee bumps bank ≡ err (enclave_kit key_mismatch)
  IsKeyMismatch (replaces self guardians bumps) =
      set_guardians p sys self auth guardians relayer_fee bumps bank
      ≡ err (enclave_kit key_mismatch)
  IsKeyMismatch (cancels self) =
      cancel p sys self auth relayer_fee bank ≡ err (enclave_kit key_mismatch)
  IsKeyMismatch (closes self) =
      close p sys self auth relayer_fee bank ≡ err (enclave_kit key_mismatch)

  -- A transfer, a sweep, a new list of guardians, a cancellation and a closing that carry a valid
  -- signature of any key but the active one, a guardian's included, fail with `KeyMismatch`.
  pub only_active_key :
      (request : Request) (signer : Bytes) (before : SmartWallet)
      → IsSignedBy request signer before
      → signer ≢ before.active_key
      → IsKeyMismatch request
  unfolding transfer sweep set_guardians cancel close require_active_key
  only_active_key (transfers self lamports bumps) signer before verified other =
      rw verified (rw (bytes_eq_ne signer before.active_key other) refl)
  only_active_key (sweeps self bumps) signer before verified other =
      rw verified (rw (bytes_eq_ne signer before.active_key other) refl)
  only_active_key (replaces self guardians bumps) signer before verified other =
      rw verified (rw (bytes_eq_ne signer before.active_key other) refl)
  only_active_key (cancels self) signer before verified other =
      rw verified (rw (bytes_eq_ne signer before.active_key other) refl)
  only_active_key (closes self) signer before verified other =
      rw verified (rw (bytes_eq_ne signer before.active_key other) refl)
