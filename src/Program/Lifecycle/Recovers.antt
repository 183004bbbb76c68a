-- ===== src/Program/Lifecycle/Recovers.antt =====
-- A guardian's proposal can be confirmed.
use enclavekit_anchor.Common.{ℕ, ℤ, pos, ◌≤ℤ◌, Bytes, true, ◌≡◌, refl, sym, ap, ◌∙◌, subst}
use enclavekit_anchor.Program.Errors.{ok}
use enclavekit_anchor.Program.State.{
  SmartWallet, empty_rotation_slot, opens_at, closes_at, new_rotation,
}
use enclavekit_anchor.Program.Events.{RotationProposed, KeyRotated}
use enclavekit_anchor.Program.Platform.{Platform, Sysvars, Bank}
use enclavekit_anchor.Program.Authorization.{Authorization}
use enclavekit_anchor.Program.Instructions.Outcome.{Outcome}
use enclavekit_anchor.Program.Instructions.ProposeRotation.{
  Proposal, pending, rotated, ProposeRotation, rotate_now, propose,
}
use enclavekit_anchor.Program.Instructions.ProposeRotation.Proposed.{
  Decided, by_owner, by_guardian, propose-IsProposed,
}
use enclavekit_anchor.Program.Instructions.ConfirmRotation.{confirm}
use enclavekit_anchor.Program.Instructions.ConfirmRotation.Window.{IsConfirmed-confirm, confirmed}

-- After a proposal that a guardian made, the wallet holds it, with the time that its event tells.
record IsHeld (w : SmartWallet) (new_key : Bytes) (e : RotationProposed) : Type 0 where
  is_pending : w.rotation.pending ≡ true
  for_key : w.rotation.proposal.new_key ≡ new_key
  told : e.opens_at ≡ opens_at w.rotation.proposal

-- The time that a guardian's proposal tells.
abbrev told_time : Proposal → ℤ
told_time (rotated k) = pos 0
told_time (pending k) = k.opens_at

module _ (p : Platform) (sys : Sysvars) (self : ProposeRotation) (auth : Authorization)
    (new_key : Bytes) (relayer_fee : ℕ) (bank : Bank) (o : Outcome Proposal)
    (e : RotationProposed) where
  pending-IsHeld :
      propose p sys self auth new_key relayer_fee bank ≡ ok o
      → o.event ≡ pending e
      → IsHeld o.wallet new_key e
  unfolding rotate_now new_rotation
  pending-IsHeld h told =
      let r = propose-IsProposed p sys self auth new_key relayer_fee bank o h in
      held r.before r.signer r.decided
    where
      held :
          (before : SmartWallet) (signer : Bytes)
          → Decided sys before signer new_key (o.event, o.wallet)
          → IsHeld o.wallet new_key e
      held before signer (by_owner owner gives) =
          absurd (cc (told, ap (λ (t : Proposal × SmartWallet). t.0) gives))
      held before signer (by_guardian other g) =
          let wallet = ap (λ (t : Proposal × SmartWallet). t.1) g.gives in
          record {
            is_pending = ap (λ (w : SmartWallet). w.rotation.pending) wallet;
            for_key = ap (λ (w : SmartWallet). w.rotation.proposal.new_key) wallet;
            told =
                ap told_time (sym told ∙ ap (λ (t : Proposal × SmartWallet). t.0) g.gives)
                ∙ sym (ap (λ (w : SmartWallet). opens_at w.rotation.proposal) wallet);
          }

  -- A guardian's proposal that succeeded can be confirmed by anyone, if nothing else happens to the
  -- wallet, at every time from the one its event tells to the end of its window: the new key is then
  -- the active key and no rotation is pending.
  pub proposal_confirmable :
      (sys' : Sysvars) (bank' : Bank) (now : ℤ)
      → propose p sys self auth new_key relayer_fee bank ≡ ok o
      → o.event ≡ pending e
      → sys'.unix_timestamp ≡ ok now
      → e.opens_at ≤ℤ now
      → now ≤ℤ closes_at o.wallet.rotation.proposal
      → (c : Outcome KeyRotated) × (confirm sys' (record { wallet = o.wallet }) bank' ≡ ok c)
        × (c.wallet.active_key ≡ new_key)
        × (c.wallet.rotation ≡ empty_rotation_slot)
  proposal_confirmable sys' bank' now h told clock opened live =
      let k = pending-IsHeld h told in
      (
        confirmed sys' (record { wallet = o.wallet }) bank',
        IsConfirmed-confirm sys' (record { wallet = o.wallet }) bank' now k.is_pending clock
            (subst (λ (z : ℤ). z ≤ℤ now) k.told opened) live,
        k.for_key,
        refl,
      )
