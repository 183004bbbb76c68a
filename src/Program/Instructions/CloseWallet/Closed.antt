-- ===== src/Program/Instructions/CloseWallet/Closed.antt =====
-- What a successful `close` has checked and paid.
use enclavekit_anchor.Common.{ℕ, ◌-◌, ◌≤◌, min, Bytes, ◌≡◌, refl, ◌∙◌, ap, subst, arith}
use enclavekit_anchor.Encoding.Action
use enclavekit_anchor.Program.Errors.{ok, bind_ok, ok_injective}
use enclavekit_anchor.Program.Events.{WalletClosed}
use enclavekit_anchor.Program.Platform.{Sysvars, Platform, Bank, move}
use enclavekit_anchor.Program.Authorization.{
  Authorization, verify_enclave_authorization, transfer_from_vault,
}
use enclavekit_anchor.Program.Authorization.Verified.{require_active_key_ok}
use enclavekit_anchor.Program.Authorization.Payments.{transfer_from_vault_moves}
use enclavekit_anchor.Program.Instructions.Outcome.{Outcome}
use enclavekit_anchor.Program.Instructions.CloseWallet.{CloseWallet, close}

module _ (p : Platform) (sys : Sysvars) (self : CloseWallet) (auth : Authorization)
    (relayer_fee : ℕ) (bank : Bank) where
  pub record IsClosed (o : Outcome WalletClosed) : Type 0 where
    pub signer : Bytes
    pub verified :
        verify_enclave_authorization p sys self.wallet auth
          (Action.close_wallet self.to)
          self.wallet.state_bump
          self.wallet.vault_bump
        ≡ ok (signer, o.wallet)
    pub by_active_key : signer ≡ o.wallet.active_key
    pub covered : min (min relayer_fee auth.max_relayer_fee) (bank self.vault) ≤ bank self.vault
    pub paid :
        o.bank
        ≡ move self.vault self.relayer
            (min (min relayer_fee auth.max_relayer_fee) (bank self.vault))
            (move self.vault self.to
              (bank self.vault - min (min relayer_fee auth.max_relayer_fee) (bank self.vault))
              bank)
    pub told : o.event ≡ record {
      wallet_id = o.wallet.wallet_id;
      to = self.to;
      lamports = bank self.vault - min (min relayer_fee auth.max_relayer_fee) (bank self.vault);
      relayer_fee = min (min relayer_fee auth.max_relayer_fee) (bank self.vault);
    }

  pub close-IsClosed :
      (o : Outcome WalletClosed) → close p sys self auth relayer_fee bank ≡ ok o → IsClosed o
  unfolding close
  close-IsClosed o h =
      let refund = min (min relayer_fee auth.max_relayer_fee) (bank self.vault) in
      let lamports = bank self.vault - refund in
      bind_ok (verify_enclave_authorization _ _ _ _ _ _ _) _ h λ sw verified h1.
        require_active_key_ok sw.1 sw.0 _ h1 λ active h2.
          bind_ok (transfer_from_vault _ _ _ _ _ _) _ h2 λ bank1 sent h3.
            bind_ok (transfer_from_vault _ _ _ _ _ _) _ h3 λ bank2 refunded h4.
              let (has, moved) =
                transfer_from_vault_moves p sw.1 self.vault self.to lamports bank bank1 sent in
              let (has', moved') =
                transfer_from_vault_moves p sw.1 self.vault self.relayer refund bank1 bank2
                  refunded in
              subst IsClosed (ok_injective _ o h4) (record {
                signer = sw.0;
                verified = verified;
                by_active_key = active;
                covered = omega arith;
                paid = moved' ∙ ap (move self.vault self.relayer refund) moved;
                told = refl;
              })
