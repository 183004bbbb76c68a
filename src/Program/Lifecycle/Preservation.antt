-- ===== src/Program/Lifecycle/Preservation.antt =====
-- Every instruction that succeeds leaves a well-formed wallet.
pub mod Parts
use enclavekit_anchor.Common.{
  ℕ, ◌+◌, Bytes, bytes_eq, true, false, List, [], ◌∷◌, map, length, length-map, All, ◌≡◌, ◌⊎◌, inl,
  inr, refl, sym, ◌∙◌, ap,
}
use mathlib.Core.Bool.{false≢true}
use enclavekit_anchor.Encoding.Action.{Action}
use enclavekit_anchor.Program.Errors.{ok}
use enclavekit_anchor.Program.State.{
  Guardian, guardian_slot_from, SmartWallet, RotationSlot, is_new, new_rotation, zero_key,
}
use enclavekit_anchor.Program.State.Guardians.{p256_guardian_first}
use enclavekit_anchor.Program.State.WellFormed.{
  IsSlot, free, guardian, IsRotation, idle, proposed, IsWellFormed,
}
use enclavekit_anchor.Program.Events.{
  SolTransferred, VaultSwept, GuardiansSet, RotationCancelled, KeyRotated,
}
use enclavekit_anchor.Program.Platform.{Sysvars, Platform, Bank}
use enclavekit_anchor.Program.Precompile.{SignedPayload, load_secp256r1_payload}
use enclavekit_anchor.Program.Authorization.{
  Authorization, first_wallet, verify_enclave_authorization,
}
use enclavekit_anchor.Program.Authorization.Verified.{verify-IsVerified}
use enclavekit_anchor.Program.Authorization.Accepted.{verify_in_use, verify_first_use}
use enclavekit_anchor.Program.Instructions.Outcome.{Outcome, Bumps}
use enclavekit_anchor.Program.Instructions.TransferSol.{TransferSol, transfer}
use enclavekit_anchor.Program.Instructions.TransferSol.Transferred.{transfer-IsTransferred}
use enclavekit_anchor.Program.Instructions.SweepVault.{SweepVault, sweep}
use enclavekit_anchor.Program.Instructions.SweepVault.Swept.{sweep-IsSwept}
use enclavekit_anchor.Program.Instructions.SetGuardians.{SetGuardians, set_guardians, any_web_authn}
use enclavekit_anchor.Program.Instructions.SetGuardians.Replaced.{set_guardians-IsReplaced}
use enclavekit_anchor.Program.Instructions.CancelRotation.{CancelRotation, cancel}
use enclavekit_anchor.Program.Instructions.CancelRotation.Cancelled.{cancel-IsCancelled}
use enclavekit_anchor.Program.Instructions.ConfirmRotation.{ConfirmRotation, confirm}
use enclavekit_anchor.Program.Instructions.ConfirmRotation.Window.{confirm-IsConfirmed}
use enclavekit_anchor.Program.Instructions.ProposeRotation.{
  ProposeRotation, Proposal, propose, rotate_now,
}
use enclavekit_anchor.Program.Instructions.ProposeRotation.Proposed.{
  Decided, by_owner, by_guardian, propose-IsProposed,
}
use enclavekit_anchor.Program.Lifecycle.Preservation.Parts.{
  IsWellFormed-nonce, first_wallet-IsWellFormed, guardian_slot_from-IsSlot, Decided-IsWellFormed,
}

-- The precompile verified a signature of the key that it carries, and no signature verifies under
-- all zeros, which is no curve point.
abbrev pub HasRealKey : Sysvars → Type 0
HasRealKey sys =
    (payload : SignedPayload)
    → load_secp256r1_payload sys.previous_instruction ≡ ok payload
    → bytes_eq payload.pubkey zero_key ≡ false

-- Just made by `init_if_needed`, or in use and well formed.
abbrev pub IsReady : SmartWallet → Type 0
IsReady w = (is_new w ≡ true) ⊎ IsWellFormed w

pub IsWellFormed-used : {w : SmartWallet} → IsWellFormed w → is_new w ≡ false
unfolding is_new
IsWellFormed-used h = h.in_use

pending_key :
    (w : SmartWallet)
    → IsRotation w.guardians w.rotation
    → w.rotation.pending ≡ true
    → bytes_eq w.rotation.proposal.new_key zero_key ≡ false
pending_key w (idle e) was =
    absurd (false≢true (sym (ap (λ (r : RotationSlot). r.pending) e) ∙ was))
pending_key w (proposed by _ set _ _) was = set

-- Confirming leaves a well-formed wallet: the key that it installs is not all zeros.
pub confirm-IsWellFormed :
    (sys : Sysvars) (self : ConfirmRotation) (bank : Bank) (o : Outcome KeyRotated)
    → IsWellFormed self.wallet
    → confirm sys self bank ≡ ok o
    → IsWellFormed o.wallet
confirm-IsWellFormed sys self bank o formed h =
    let c = confirm-IsConfirmed sys self bank o h in
    rw (ap (λ (t : Outcome KeyRotated). t.wallet) c.written) (record {
      in_use = pending_key self.wallet formed.rotation_ok c.was_pending;
      three_slots = formed.three_slots;
      slots = formed.slots;
      rotation_ok = idle refl;
    })

module _ (p : Platform) (sys : Sysvars) (real : HasRealKey sys) where
  pub verify-IsWellFormed :
      (w : SmartWallet) (auth : Authorization) (action : Action) (sb vb : ℕ) (signer : Bytes)
      (w' : SmartWallet)
      → IsReady w
      → verify_enclave_authorization p sys w auth action sb vb ≡ ok (signer, w')
      → IsWellFormed w'
  verify-IsWellFormed w auth action sb vb signer w' (inr formed) h =
      let (_, written) = verify_in_use p sys w auth action sb vb (IsWellFormed-used formed) h in
      rw written (IsWellFormed-nonce w (w.nonce + 1) formed)
  verify-IsWellFormed w auth action sb vb signer w' (inl new) h =
      let v = verify-IsVerified p sys w auth action sb vb signer w' h in
      let (_, _, written) = verify_first_use p sys w auth action sb vb new h in
      let key : bytes_eq signer zero_key ≡ false = rw v.by_payload (real v.payload v.loaded) in
      rw written (
        IsWellFormed-nonce (first_wallet auth signer sb vb) 1
          (first_wallet-IsWellFormed auth signer sb vb key))

  -- A transfer that succeeds leaves a well-formed wallet, also where it is the wallet's first use.
  pub transfer-IsWellFormed :
      (self : TransferSol) (auth : Authorization) (lamports relayer_fee : ℕ) (bumps : Bumps)
      (bank : Bank) (o : Outcome SolTransferred)
      → IsReady self.wallet
      → transfer p sys self auth lamports relayer_fee bumps bank ≡ ok o
      → IsWellFormed o.wallet
  transfer-IsWellFormed self auth lamports relayer_fee bumps bank o ready h =
      let t = transfer-IsTransferred p sys self auth lamports relayer_fee bumps bank o h in
      verify-IsWellFormed self.wallet auth _ bumps.wallet bumps.vault t.signer o.wallet ready
        t.verified

  pub sweep-IsWellFormed :
      (self : SweepVault) (auth : Authorization) (relayer_fee : ℕ) (bumps : Bumps) (bank : Bank)
      (o : Outcome VaultSwept)
      → IsReady self.wallet
      → sweep p sys self auth relayer_fee bumps bank ≡ ok o
      → IsWellFormed o.wallet
  sweep-IsWellFormed self auth relayer_fee bumps bank o ready h =
      let t = sweep-IsSwept p sys self auth relayer_fee bumps bank o h in
      verify-IsWellFormed self.wallet auth _ bumps.wallet bumps.vault t.signer o.wallet ready
        t.verified

  pub cancel-IsWellFormed :
      (self : CancelRotation) (auth : Authorization) (relayer_fee : ℕ) (bank : Bank)
      (o : Outcome RotationCancelled)
      → IsWellFormed self.wallet
      → cancel p sys self auth relayer_fee bank ≡ ok o
      → IsWellFormed o.wallet
  cancel-IsWellFormed self auth relayer_fee bank o formed h =
      let c = cancel-IsCancelled p sys self auth relayer_fee bank o h in
      let before =
        verify-IsWellFormed self.wallet auth _ _ _ c.signer c.before (inr formed) c.verified in
      rw c.written (record {
        in_use = before.in_use;
        three_slots = before.three_slots;
        slots = before.slots;
        rotation_ok = idle refl;
      })

  -- Replacing the guardians leaves a well-formed wallet: three slots, none a passkey, no rotation.
  pub set_guardians-IsWellFormed :
      (self : SetGuardians) (auth : Authorization) (guardians : List Guardian) (relayer_fee : ℕ)
      (bumps : Bumps) (bank : Bank) (o : Outcome GuardiansSet)
      → length guardians ≡ 3
      → IsReady self.wallet
      → set_guardians p sys self auth guardians relayer_fee bumps bank ≡ ok o
      → IsWellFormed o.wallet
  set_guardians-IsWellFormed self auth guardians relayer_fee bumps bank o three ready h =
      let r = set_guardians-IsReplaced p sys self auth guardians relayer_fee bumps bank o h in
      let before =
        verify-IsWellFormed self.wallet auth _ bumps.wallet bumps.vault r.signer r.before ready
          r.verified in
      rw r.written (record {
        in_use = before.in_use;
        three_slots = length-map guardians guardian_slot_from ∙ three;
        slots = guardian_slot_from-IsSlot guardians r.no_web_authn;
        rotation_ok = idle refl;
      })

  -- A proposal leaves a well-formed wallet, whoever signed it.
  pub propose-IsWellFormed :
      (self : ProposeRotation) (auth : Authorization) (new_key : Bytes) (relayer_fee : ℕ)
      (bank : Bank) (o : Outcome Proposal)
      → IsWellFormed self.wallet
      → propose p sys self auth new_key relayer_fee bank ≡ ok o
      → IsWellFormed o.wallet
  propose-IsWellFormed self auth new_key relayer_fee bank o formed h =
      let r = propose-IsProposed p sys self auth new_key relayer_fee bank o h in
      let before =
        verify-IsWellFormed self.wallet auth _ _ _ r.signer r.before (inr formed) r.verified in
      Decided-IsWellFormed sys r.before r.signer new_key o.event o.wallet r.new_key_set before
        r.decided
