-- ===== src/Program/Instructions/Ended.antt =====
-- A rotation that was ended, in any of the four ways, is not confirmed.
use enclavekit_anchor.Common.{ℕ, List, Bytes, false, ◌≡◌, ◌≢◌, ap, ◌∙◌, sym}
use enclavekit_anchor.Program.Errors.{ok, err, enclave_kit, no_pending_rotation}
use enclavekit_anchor.Program.State.{SmartWallet, Guardian}
use enclavekit_anchor.Program.Events.{RotationCancelled, GuardiansSet, KeyRotated, RotationProposed}
use enclavekit_anchor.Program.Platform.{Sysvars, Platform, Bank}
use enclavekit_anchor.Program.Authorization.{Authorization}
use enclavekit_anchor.Program.Instructions.Outcome.{Outcome, Bumps}
use enclavekit_anchor.Program.Instructions.CancelRotation.{CancelRotation, cancel}
use enclavekit_anchor.Program.Instructions.CancelRotation.Cancelled.{cancel-IsCancelled}
use enclavekit_anchor.Program.Instructions.SetGuardians.{SetGuardians, set_guardians}
use enclavekit_anchor.Program.Instructions.SetGuardians.Replaced.{set_guardians-IsReplaced}
use enclavekit_anchor.Program.Instructions.ProposeRotation.{
  ProposeRotation, Proposal, rotated, pending, rotate_now, propose,
}
use enclavekit_anchor.Program.Instructions.ProposeRotation.Proposed.{
  Decided, by_owner, by_guardian, propose-IsProposed,
}
use enclavekit_anchor.Program.Instructions.ConfirmRotation.{ConfirmRotation, confirm}
use enclavekit_anchor.Program.Instructions.ConfirmRotation.Window.{confirm-IsConfirmed}
use enclavekit_anchor.Program.Instructions.ConfirmRotation.Timelock.{
  confirm_errors, nothing_pending,
}

module _ (p : Platform) (sys : Sysvars) where
  -- The wallet as one of these instructions left it: a cancellation, new guardians, the owner's own
  -- move to another key, or a confirmation.
  pub data HasEnded (w : SmartWallet) : Type 0 where
    cancelled :
        (self : CancelRotation) (auth : Authorization) (relayer_fee : ℕ) (bank : Bank)
        (o : Outcome RotationCancelled)
        → cancel p sys self auth relayer_fee bank ≡ ok o
        → w ≡ o.wallet
        → HasEnded w
    replaced :
        (self : SetGuardians) (auth : Authorization) (guardians : List Guardian) (relayer_fee : ℕ)
        (bumps : Bumps) (bank : Bank) (o : Outcome GuardiansSet)
        → set_guardians p sys self auth guardians relayer_fee bumps bank ≡ ok o
        → w ≡ o.wallet
        → HasEnded w
    moved :
        (self : ProposeRotation) (auth : Authorization) (new_key : Bytes) (relayer_fee : ℕ)
        (bank : Bank) (o : Outcome Proposal) (event : KeyRotated)
        → propose p sys self auth new_key relayer_fee bank ≡ ok o
        → o.event ≡ rotated event
        → w ≡ o.wallet
        → HasEnded w
    confirmed :
        (self : ConfirmRotation) (bank : Bank) (o : Outcome KeyRotated)
        → confirm sys self bank ≡ ok o
        → w ≡ o.wallet
        → HasEnded w

  owner_ends :
      (before : SmartWallet) (signer new_key : Bytes) (r : Proposal × SmartWallet)
      (event : KeyRotated)
      → r.0 ≡ rotated event
      → Decided sys before signer new_key r
      → r.1.rotation.pending ≡ false
  unfolding rotate_now
  owner_ends before signer new_key r event e (by_owner _ d) =
      ap (λ (t : Proposal × SmartWallet). t.1.rotation.pending) d
  owner_ends before signer new_key r event e (by_guardian _ g) =
      absurd (apart _ _ (sym e ∙ ap (λ (t : Proposal × SmartWallet). t.0) g.gives))
    where
      apart : (a : KeyRotated) (b : RotationProposed) → rotated a ≢ pending b
      apart a b h = cc

  ended : (w : SmartWallet) → HasEnded w → w.rotation.pending ≡ false
  ended w (cancelled self auth fee bank o h e) =
      ap (λ (x : SmartWallet). x.rotation.pending)
        (e ∙ (cancel-IsCancelled p sys self auth fee bank o h).written)
  ended w (replaced self auth guardians fee bumps bank o h e) =
      ap (λ (x : SmartWallet). x.rotation.pending)
        (e ∙ (set_guardians-IsReplaced p sys self auth guardians fee bumps bank o h).written)
  ended w (moved self auth new_key fee bank o event h told e) =
      let t = propose-IsProposed p sys self auth new_key fee bank o h in
      ap (λ (x : SmartWallet). x.rotation.pending) e
      ∙ owner_ends t.before t.signer new_key (o.event, o.wallet) event told t.decided
  ended w (confirmed self bank o h e) =
      ap (λ (x : SmartWallet). x.rotation.pending)
        (e
          ∙ ap (λ (x : Outcome KeyRotated). x.wallet)
              (confirm-IsConfirmed sys self bank o h).written)

  -- After a cancellation, new guardians, the owner's own move to another key, or a confirmation, a
  -- confirmation of the wallet is refused at any time: no proposal that was pending survives.
  pub ended_not_confirmed :
      (w : SmartWallet) (sys' : Sysvars) (bank' : Bank)
      → HasEnded w
      → confirm sys' (record { wallet = w }) bank' ≡ err (enclave_kit no_pending_rotation)
  ended_not_confirmed w sys' bank' h =
      confirm_errors sys' (record { wallet = w }) bank' (nothing_pending (ended w h))
