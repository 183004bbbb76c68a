-- ===== src/Program/Instructions/TransferSol/Transferred.antt =====
-- What a successful `transfer` has checked and paid.
use enclavekit_anchor.Common.{
  ℕ, ◌+◌, ◌≤◌, ◌<◌, ◌^◌, min, leb, leb→le, Bytes, ◌≡◌, ◌∙◌, ap, subst, arith,
}
use enclavekit_anchor.Encoding.Action.{Action}
use enclavekit_anchor.Program.Errors.{ok, bind_ok, require_ok, ok_injective}
use enclavekit_anchor.Program.Events.{SolTransferred}
use enclavekit_anchor.Program.Platform.{Sysvars, Platform, Bank, move}
use enclavekit_anchor.Program.Authorization.{
  Authorization, checked_add, verify_enclave_authorization, transfer_from_vault, refund_relayer,
}
use enclavekit_anchor.Program.Authorization.Verified.{require_active_key_ok, checked_add-eq-ok}
use enclavekit_anchor.Program.Authorization.Payments.{
  transfer_from_vault_moves, refund_relayer_moves,
}
use enclavekit_anchor.Program.Instructions.Outcome.{Outcome, Bumps}
use enclavekit_anchor.Program.Instructions.TransferSol.{TransferSol, transfer}

module _ (p : Platform) (sys : Sysvars) (self : TransferSol) (auth : Authorization)
    (lamports relayer_fee : ℕ) (bumps : Bumps) (bank : Bank) where
  abbrev refund : ℕ
  refund = min relayer_fee auth.max_relayer_fee

  pub record IsTransferred (o : Outcome SolTransferred) : Type 0 where
    pub signer : Bytes
    pub rent : ℕ
    pub verified :
        verify_enclave_authorization p sys self.wallet auth
          (Action.transfer_sol self.to lamports)
          bumps.wallet
          bumps.vault
        ≡ ok (signer, o.wallet)
    pub by_active_key : signer ≡ o.wallet.active_key
    pub rent_read : sys.rent_minimum ≡ ok rent
    pub covered : lamports + auth.max_relayer_fee + rent ≤ bank self.vault
    pub fits : lamports + auth.max_relayer_fee + rent < 2 ^ 64
    pub paid : o.bank ≡ move self.vault self.relayer refund (move self.vault self.to lamports bank)
    pub told : o.event ≡ record {
      wallet_id = o.wallet.wallet_id;
      to = self.to;
      lamports = lamports;
      relayer_fee = refund;
    }

  pub transfer-IsTransferred :
      (o : Outcome SolTransferred)
      → transfer p sys self auth lamports relayer_fee bumps bank ≡ ok o
      → IsTransferred o
  unfolding transfer
  transfer-IsTransferred o h =
      bind_ok (verify_enclave_authorization _ _ _ _ _ _ _) _ h λ sw verified h1.
        require_active_key_ok sw.1 sw.0 _ h1 λ active h2.
          bind_ok sys.rent_minimum _ h2 λ rent rent_read h3.
            bind_ok (checked_add _ _) _ h3 λ sum added h4.
              bind_ok (checked_add _ _) _ h4 λ required added' h5.
                require_ok (leb required (bank self.vault)) _ _ h5 λ enough h6.
                  bind_ok (transfer_from_vault _ _ _ _ _ _) _ h6 λ bank1 sent h7.
                    bind_ok (refund_relayer _ _ _ _ _ _ _) _ h7 λ pb refunded h8.
                      let e1 = checked_add-eq-ok lamports auth.max_relayer_fee added in
                      let e2 = checked_add-eq-ok sum rent added' in
                      let (has, moved) =
                        transfer_from_vault_moves p sw.1 self.vault self.to lamports bank bank1
                          sent in
                      let (amount, has', moved') =
                        refund_relayer_moves p sw.1 self.vault self.relayer relayer_fee
                          auth.max_relayer_fee bank1 pb.1 pb.0 refunded in
                      subst IsTransferred (ok_injective _ o h8) (record {
                        signer = sw.0;
                        rent = rent;
                        verified = verified;
                        by_active_key = active;
                        rent_read = rent_read;
                        covered = omega (arith, e1, e2, leb→le required (bank self.vault) enough);
                        fits = omega (arith, e1, e2);
                        paid = moved' ∙ ap (move self.vault self.relayer refund) moved;
                        told = rw amount;
                      })
