-- ===== src/Program/Instructions/CancelRotation/Cancelled.antt =====
-- What a successful `cancel` has checked and written.
use enclavekit_anchor.Common.{ℕ, ◌≤◌, min, Bytes, true, ◌≡◌, refl, ap, subst, arith}
use enclavekit_anchor.Encoding.Action
use enclavekit_anchor.Program.Errors.{
  ok, ok_or, bind_ok, ok_injective, enclave_kit, no_pending_rotation,
}
use enclavekit_anchor.Program.State.{
  SmartWallet, PendingRotation, empty_rotation_slot, take_rotation,
}
use enclavekit_anchor.Program.Events.{RotationCancelled}
use enclavekit_anchor.Program.Platform.{Sysvars, Platform, Bank, move}
use enclavekit_anchor.Program.Authorization.{
  Authorization, verify_enclave_authorization, refund_relayer,
}
use enclavekit_anchor.Program.Authorization.Verified.{require_active_key_ok}
use enclavekit_anchor.Program.Authorization.Payments.{refund_relayer_moves}
use enclavekit_anchor.Program.Instructions.Outcome.{Outcome}
use enclavekit_anchor.Program.Instructions.CancelRotation.{CancelRotation, cancel}

held_pending :
    (wallet : SmartWallet) (pending : PendingRotation)
    → ok_or (take_rotation wallet.rotation).0 (enclave_kit no_pending_rotation) ≡ ok pending
    → (wallet.rotation.pending ≡ true) × (pending ≡ wallet.rotation.proposal)
unfolding take_rotation
held_pending wallet pending h = ground arith

-- The event of a dropped proposal.
abbrev told_of : SmartWallet → PendingRotation → RotationCancelled
told_of wallet pending = record { wallet_id = wallet.wallet_id; new_key = pending.new_key }

module _ (p : Platform) (sys : Sysvars) (self : CancelRotation) (auth : Authorization)
    (relayer_fee : ℕ) (bank : Bank) where
  pub record IsCancelled (o : Outcome RotationCancelled) : Type 0 where
    pub signer : Bytes
    pub before : SmartWallet
    pub verified :
        verify_enclave_authorization p sys self.wallet auth Action.cancel_rotation
          self.wallet.state_bump self.wallet.vault_bump
        ≡ ok (signer, before)
    pub by_active_key : signer ≡ before.active_key
    pub was_pending : before.rotation.pending ≡ true
    pub written : o.wallet ≡ record before { rotation = empty_rotation_slot }
    pub covered : min relayer_fee auth.max_relayer_fee ≤ bank self.vault
    pub paid : o.bank ≡ move self.vault self.relayer (min relayer_fee auth.max_relayer_fee) bank
    pub told :
        o.event
        ≡ record { wallet_id = before.wallet_id; new_key = before.rotation.proposal.new_key }

  pub cancel-IsCancelled :
      (o : Outcome RotationCancelled)
      → cancel p sys self auth relayer_fee bank ≡ ok o
      → IsCancelled o
  unfolding cancel take_rotation
  cancel-IsCancelled o h =
      bind_ok (verify_enclave_authorization _ _ _ _ _ _ _) _ h λ sw verified h1.
        require_active_key_ok sw.1 sw.0 _ h1 λ active h2.
          bind_ok (ok_or _ _) _ h2 λ pending held h3.
            bind_ok (refund_relayer _ _ _ _ _ _ _) _ h3 λ pb refunded h4.
              let (was, same) = held_pending sw.1 pending held in
              let wallet = record sw.1 { rotation = empty_rotation_slot } in
              let (amount, has, moved) =
                refund_relayer_moves p wallet self.vault self.relayer relayer_fee
                  auth.max_relayer_fee bank pb.1 pb.0 refunded in
              subst IsCancelled (ok_injective _ o h4) (record {
                signer = sw.0;
                before = sw.1;
                verified = verified;
                by_active_key = active;
                was_pending = was;
                written = refl;
                covered = has;
                paid = moved;
                told = ap (λ (t : PendingRotation). told_of sw.1 t) same;
              })
