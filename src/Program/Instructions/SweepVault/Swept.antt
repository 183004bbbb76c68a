-- ===== src/Program/Instructions/SweepVault/Swept.antt =====
-- What a successful `sweep` has checked and paid.
use enclavekit_anchor.Common.{ℕ, ◌-◌, ◌≤◌, min, leb, leb→le, Bytes, ◌≡◌, refl, ◌∙◌, ap, subst}
use enclavekit_anchor.Encoding.Action
use enclavekit_anchor.Program.Errors.{ok, bind_ok, require_ok, ok_injective}
use enclavekit_anchor.Program.Events.{VaultSwept}
use enclavekit_anchor.Program.Platform.{Sysvars, Platform, Bank, move}
use enclavekit_anchor.Program.Authorization.{
  Authorization, verify_enclave_authorization, transfer_from_vault, refund_relayer,
}
use enclavekit_anchor.Program.Authorization.Verified.{require_active_key_ok}
use enclavekit_anchor.Program.Authorization.Payments.{
  transfer_from_vault_moves, refund_relayer_moves,
}
use enclavekit_anchor.Program.Instructions.Outcome.{Outcome, Bumps}
use enclavekit_anchor.Program.Instructions.SweepVault.{SweepVault, sweep}

module _ (p : Platform) (sys : Sysvars) (self : SweepVault) (auth : Authorization) (relayer_fee : ℕ)
    (bumps : Bumps) (bank : Bank) where
  pub record IsSwept (o : Outcome VaultSwept) : Type 0 where
    pub signer : Bytes
    pub verified :
        verify_enclave_authorization p sys self.wallet auth
          (Action.sweep_vault self.to)
          bumps.wallet
          bumps.vault
        ≡ ok (signer, o.wallet)
    pub by_active_key : signer ≡ o.wallet.active_key
    pub covered : min relayer_fee auth.max_relayer_fee ≤ bank self.vault
    pub paid :
        o.bank
        ≡ move self.vault self.relayer
            (min relayer_fee auth.max_relayer_fee)
            (move self.vault self.to (bank self.vault - min relayer_fee auth.max_relayer_fee) bank)
    pub told : o.event ≡ record {
      wallet_id = o.wallet.wallet_id;
      to = self.to;
      lamports = bank self.vault - min relayer_fee auth.max_relayer_fee;
      relayer_fee = min relayer_fee auth.max_relayer_fee;
    }

  pub sweep-IsSwept :
      (o : Outcome VaultSwept) → sweep p sys self auth relayer_fee bumps bank ≡ ok o → IsSwept o
  unfolding sweep
  sweep-IsSwept o h =
      let refund = min relayer_fee auth.max_relayer_fee in
      let lamports = bank self.vault - refund in
      bind_ok (verify_enclave_authorization _ _ _ _ _ _ _) _ h λ sw verified h1.
        require_active_key_ok sw.1 sw.0 _ h1 λ active h2.
          require_ok (leb refund (bank self.vault)) _ _ h2 λ enough h3.
            bind_ok (transfer_from_vault _ _ _ _ _ _) _ h3 λ bank1 sent h4.
              bind_ok (refund_relayer _ _ _ _ _ _ _) _ h4 λ pb refunded h5.
                let (has, moved) =
                  transfer_from_vault_moves p sw.1 self.vault self.to lamports bank bank1 sent in
                let (amount, has', moved') =
                  refund_relayer_moves p sw.1 self.vault self.relayer relayer_fee
                    auth.max_relayer_fee bank1 pb.1 pb.0 refunded in
                subst IsSwept (ok_injective _ o h5) (record {
                  signer = sw.0;
                  verified = verified;
                  by_active_key = active;
                  covered = leb→le refund (bank self.vault) enough;
                  paid = moved' ∙ ap (move self.vault self.relayer refund) moved;
                  told = refl;
                })
