-- ===== src/Program/Lifecycle/Recovery.antt =====
-- A confirmed recovery goes back to a guardian's signature.
pub mod Origin
use enclavekit_anchor.Common.{
  ℕ, ◌+◌, ℤ, pos, ◌+ℤ◌, ◌≤ℤ◌, ◌<ℤ◌, IsI64, i64_max, Bytes, true, false, ◌≡◌, ◌≢◌, refl, sym, ◌∙◌,
  ap, subst, inl, inr,
}
use mathlib.Core.Bool.{false≢true}
use mathlib.Core.Option.{Option, none, some}
use enclavekit_anchor.Encoding.Action.{Action}
use enclavekit_anchor.Program.Errors.{ok}
use enclavekit_anchor.Program.State.{
  SmartWallet, RotationSlot, empty_rotation_slot, new_rotation, p256_guardian, is_new,
}
use enclavekit_anchor.Program.Events.{KeyRotated}
use enclavekit_anchor.Program.Platform.{Sysvars, Platform, Bank}
use enclavekit_anchor.Program.Authorization.{
  Authorization, first_wallet, verify_enclave_authorization,
}
use enclavekit_anchor.Program.Authorization.Accepted.{verify_in_use, verify_first_use}
use enclavekit_anchor.Program.Instructions.Outcome.{Outcome}
use enclavekit_anchor.Program.Instructions.TransferSol.Transferred.{transfer-IsTransferred}
use enclavekit_anchor.Program.Instructions.SweepVault.Swept.{sweep-IsSwept}
use enclavekit_anchor.Program.Instructions.SetGuardians.Replaced.{set_guardians-IsReplaced}
use enclavekit_anchor.Program.Instructions.CancelRotation.Cancelled.{cancel-IsCancelled}
use enclavekit_anchor.Program.Instructions.ConfirmRotation.{ConfirmRotation, confirm}
use enclavekit_anchor.Program.Instructions.ConfirmRotation.Window.{confirm-IsConfirmed}
use enclavekit_anchor.Program.Instructions.ConfirmRotation.Timelock.{confirm_timelock}
use enclavekit_anchor.Program.Instructions.ProposeRotation.{Proposal, rotate_now}
use enclavekit_anchor.Program.Instructions.ProposeRotation.Proposed.{
  Decided, by_owner, by_guardian, propose-IsProposed,
}
use enclavekit_anchor.Program.Lifecycle.Preservation.{HasRealKey, IsReady, IsWellFormed-used}
use enclavekit_anchor.Program.Lifecycle.Steps.{
  load_or_init, Keeps, transferred, swept, guardians_replaced, cancelled, proposed, confirmed,
  Reaches, absent, kept, removed,
}
use enclavekit_anchor.Program.Lifecycle.Invariant.{IsSound, IsSound-IsReady, Reaches-IsSound}
use enclavekit_anchor.Program.Lifecycle.Recovery.Origin.{
  GoesOn, here, later, IsProposedIn, not_pending, proposed-IsProposedIn,
}

module _ (p : Platform) (wallet_id : Bytes) where
  -- A pending proposal was made in this history.
  abbrev HasOrigin : {a : Option SmartWallet} → Reaches p wallet_id a → SmartWallet → Type 0
  HasOrigin r w = w.rotation.pending ≡ true → IsProposedIn r w

  abbrev AccountHasOrigin :
      {a : Option SmartWallet} → Reaches p wallet_id a → Option SmartWallet → Type 0
  AccountHasOrigin r none = Unit
  AccountHasOrigin r (some w) = HasOrigin r w

  module _ {a : Option SmartWallet} (r : Reaches p wallet_id a) (sound : IsSound a)
      (origin : AccountHasOrigin r a) where
    -- After an accepted authorization, what was pending before is.
    verify_carries :
        (sys : Sysvars) (w : SmartWallet) (auth : Authorization) (action : Action) (sb vb : ℕ)
        (signer : Bytes) (w' : SmartWallet)
        → w ≡ load_or_init a
        → verify_enclave_authorization p sys w auth action sb vb ≡ ok (signer, w')
        → HasOrigin r w'
    unfolding first_wallet
    verify_carries sys w auth action sb vb signer w' loaded h =
        elim (IsSound-IsReady a w sound loaded) [
          | inl new ↦ λ was.
              let (_, _, written) = verify_first_use p sys w auth action sb vb new h in
              absurd (not_pending w' (ap (λ (x : SmartWallet). x.rotation) written) was)
          | inr formed ↦
              let used = IsWellFormed-used formed in
              let (_, written) = verify_in_use p sys w auth action sb vb used h in
              rw written (origin_of a origin loaded)
        ]
      where
        origin_of :
            (b : Option SmartWallet) → AccountHasOrigin r b → w ≡ load_or_init b → HasOrigin r w
        origin_of none o e =
            λ was. absurd (not_pending w (ap (λ (x : SmartWallet). x.rotation) e) was)
        origin_of (some v) o e = rw e o

    -- A step to a wallet whose proposal, if any, was there before.
    still :
        (sys : Sysvars) (real : HasRealKey sys) {w' : SmartWallet} (k : Keeps p wallet_id sys a w')
        (w : SmartWallet)
        → w' ≡ w
        → HasOrigin r w
        → HasOrigin (kept sys r real k) w'
    still sys real k w e h was =
        let (m, goes_on) = subst (HasOrigin r) (sym e) h was in (m, later sys r real k goes_on)

    Keeps-HasOrigin :
        (sys : Sysvars) (real : HasRealKey sys) (w' : SmartWallet) (k : Keeps p wallet_id sys a w')
        → HasOrigin (kept sys r real k) w'
    Keeps-HasOrigin sys real w' (transferred self auth lamports fee bumps bank o _ loaded h e) =
        let t = transfer-IsTransferred p sys self auth lamports fee bumps bank o h in
        still sys real _ o.wallet e
          (verify_carries sys self.wallet auth _ _ _ t.signer o.wallet loaded t.verified)
    Keeps-HasOrigin sys real w' (swept self auth fee bumps bank o _ loaded h e) =
        let t = sweep-IsSwept p sys self auth fee bumps bank o h in
        still sys real _ o.wallet e
          (verify_carries sys self.wallet auth _ _ _ t.signer o.wallet loaded t.verified)
    Keeps-HasOrigin sys real w' (guardians_replaced self auth gs fee bumps bank o _ _ loaded h e) =
        let c = set_guardians-IsReplaced p sys self auth gs fee bumps bank o h in
        λ was. absurd (not_pending w' (ap (λ (x : SmartWallet). x.rotation) (e ∙ c.written)) was)
    Keeps-HasOrigin sys real w' (cancelled self auth fee bank o _ there h e) =
        let c = cancel-IsCancelled p sys self auth fee bank o h in
        λ was. absurd (not_pending w' (ap (λ (x : SmartWallet). x.rotation) (e ∙ c.written)) was)
    Keeps-HasOrigin sys real w' (proposed self auth new_key fee bank o at there h e) =
        proposed-IsProposedIn r sys real self auth new_key fee bank o w' at there h e
          (IsWellFormed-used (subst IsSound there sound))
    Keeps-HasOrigin sys real w' (confirmed self bank o there h e) =
        let c = confirm-IsConfirmed sys self bank o h in
        λ was. absurd (
          not_pending w'
            (ap (λ (x : SmartWallet). x.rotation)
              (e ∙ ap (λ (t : Outcome KeyRotated). t.wallet) c.written))
            was)

  Reaches-HasOrigin : {a : Option SmartWallet} (r : Reaches p wallet_id a) → AccountHasOrigin r a
  Reaches-HasOrigin absent = tt
  Reaches-HasOrigin (kept sys r real k) =
      Keeps-HasOrigin r (Reaches-IsSound p wallet_id r) (Reaches-HasOrigin r) sys real _ k
  Reaches-HasOrigin (removed sys r c) = tt

  -- In any history without a precompile key of zeros, a proposal that is confirmed (at a time before the
  -- last second of `i64`) was made by a step of that history, in the present life of the wallet: right
  -- after the precompile verified, on the preimage for the new key, a key that the wallet's slots named a
  -- P-256 guardian, while the wallet had the guardians and the active key that it still has. That was at
  -- least 72 hours and at most 72 hours and 7 days ago, and the key that was signed for is the active key
  -- now.
  pub recovery_needs_guardian :
      (sys : Sysvars) (self : ConfirmRotation) (bank : Bank) (o : Outcome KeyRotated) (now : ℤ)
      (r : Reaches p wallet_id (some self.wallet))
      → IsI64 self.wallet.rotation.proposal.proposed_at
      → sys.unix_timestamp ≡ ok now
      → now <ℤ i64_max
      → confirm sys self bank ≡ ok o
      → IsProposedIn r self.wallet
        × (self.wallet.rotation.proposal.proposed_at +ℤ pos 259200 ≤ℤ now)
        × (now ≤ℤ self.wallet.rotation.proposal.proposed_at +ℤ pos 259200 +ℤ pos 604800)
        × (o.wallet.active_key ≡ self.wallet.rotation.proposal.new_key)
  recovery_needs_guardian sys self bank o now r fits clock below h =
      let c = confirm-IsConfirmed sys self bank o h in
      let (waited, lapses) = confirm_timelock sys self bank o now fits clock below h in
      (
        Reaches-HasOrigin r c.was_pending,
        waited,
        lapses,
        ap (λ (t : Outcome KeyRotated). t.wallet.active_key) c.written,
      )
