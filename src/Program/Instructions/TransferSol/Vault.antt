-- ===== src/Program/Instructions/TransferSol/Vault.antt =====
-- The balances after a transfer, and when a transfer succeeds.
use enclavekit_anchor.Common.{
  ℕ, ◌+◌, ◌-◌, ◌≤◌, ◌<◌, ◌^◌, min, le→leb, Bytes, true, ◌≡◌, ◌≢◌, refl, sym, ◌∙◌, ap, arith,
}
use mathlib.Core.Option.{some}
use enclavekit_anchor.Encoding.Action
use enclavekit_anchor.Program.Errors.{ok}
use enclavekit_anchor.Program.State.{SmartWallet}
use enclavekit_anchor.Program.Events.{SolTransferred}
use enclavekit_anchor.Program.Platform.{Sysvars, Platform, Bank, move}
use enclavekit_anchor.Program.Platform.Moves.{move_sender, move_receiver, move_others, move-le}
use enclavekit_anchor.Program.Authorization.{
  Authorization, verify_enclave_authorization, vault_seeds,
}
use enclavekit_anchor.Program.Authorization.Verified.{checked_add_fits, require_active_key-accepts}
use enclavekit_anchor.Program.Authorization.Payments.{
  transfer_from_vault_accepts, refund_relayer_accepts, two_moves_sender,
}
use enclavekit_anchor.Program.Instructions.Outcome.{Outcome, Bumps}
use enclavekit_anchor.Program.Instructions.TransferSol.{TransferSol, transfer}
use enclavekit_anchor.Program.Instructions.TransferSol.Transferred.{transfer-IsTransferred}

module _ (p : Platform) (sys : Sysvars) (self : TransferSol) (auth : Authorization)
    (lamports relayer_fee : ℕ) (bumps : Bumps) (bank : Bank) (to_apart : self.vault ≢ self.to)
    (relayer_apart : self.vault ≢ self.relayer) where
  -- After a transfer from a vault that is neither the destination nor the relayer, the vault has
  -- paid exactly the lamports and the refund; the refund is at most what the user signed, and the
  -- vault keeps its rent-exempt minimum.
  pub transfer_keeps_rent :
      (o : Outcome SolTransferred) (rent : ℕ)
      → sys.rent_minimum ≡ ok rent
      → transfer p sys self auth lamports relayer_fee bumps bank ≡ ok o
      → (o.bank self.vault + lamports + o.event.relayer_fee ≡ bank self.vault)
        × (o.event.relayer_fee ≤ auth.max_relayer_fee)
        × (rent ≤ o.bank self.vault)
        × (o.event.lamports ≡ lamports)
  transfer_keeps_rent o rent minimum h =
      let t = transfer-IsTransferred p sys self auth lamports relayer_fee bumps bank o h in
      let left : o.bank self.vault
          ≡ bank self.vault - lamports - min relayer_fee auth.max_relayer_fee =
        ap (λ (b : Bank). b self.vault) t.paid
        ∙ two_moves_sender p o.wallet self.vault self.to self.relayer lamports
            (min relayer_fee auth.max_relayer_fee) bank to_apart relayer_apart in
      let fee : o.event.relayer_fee ≡ min relayer_fee auth.max_relayer_fee =
        ap (λ (e : SolTransferred). e.relayer_fee) t.told in
      let same_rent : t.rent ≡ rent = cc (t.rent_read) in
      let covered = t.covered in
      (omega arith, omega arith, omega arith, ap (λ (e : SolTransferred). e.lamports) t.told)

  -- After a transfer from a vault that is neither the destination nor the relayer, the destination,
  -- if it is not the relayer, has received the lamports and the relayer the refund.
  pub transfer_delivers :
      (o : Outcome SolTransferred)
      → self.to ≢ self.relayer
      → transfer p sys self auth lamports relayer_fee bumps bank ≡ ok o
      → (o.bank self.to ≡ bank self.to + lamports)
        × (o.bank self.relayer ≡ bank self.relayer + o.event.relayer_fee)
  transfer_delivers o apart h =
      let t = transfer-IsTransferred p sys self auth lamports relayer_fee bumps bank o h in
      let fee = ap (λ (e : SolTransferred). e.relayer_fee) t.told in
      let sent = move self.vault self.to lamports bank in
      (
        ap (λ (b : Bank). b self.to) t.paid
            ∙ move_others self.vault self.relayer _ sent self.to (λ e. to_apart (sym e)) apart
            ∙ move_receiver self.vault self.to lamports bank to_apart,
        ap (λ (b : Bank). b self.relayer) t.paid
            ∙ move_receiver self.vault self.relayer _ sent relayer_apart
            ∙ ap (λ (n : ℕ). n + min relayer_fee auth.max_relayer_fee)
                (move_others self.vault self.to lamports bank self.relayer
                  (λ e. relayer_apart (sym e)) (λ e. apart (sym e)))
            ∙ ap (λ (n : ℕ). bank self.relayer + n) (sym fee),
      )

module _ (p : Platform) (sys : Sysvars) (self : TransferSol) (auth : Authorization)
    (lamports relayer_fee : ℕ) (bumps : Bumps) (bank : Bank) where
  pub transfer_succeeds :
      (signer : Bytes) (wallet : SmartWallet) (rent : ℕ)
      → verify_enclave_authorization p sys self.wallet auth
          (Action.transfer_sol self.to lamports)
          bumps.wallet
          bumps.vault
        ≡ ok (signer, wallet)
      → signer ≡ wallet.active_key
      → sys.rent_minimum ≡ ok rent
      → lamports + auth.max_relayer_fee + rent ≤ bank self.vault
      → p.create_program_address (vault_seeds wallet) ≡ some self.vault
      → self.vault ≢ self.to
      → self.vault ≢ self.relayer
      → p.is_payable self.to ≡ true
      → p.is_payable self.relayer ≡ true
      → bank self.vault + bank self.to + bank self.relayer < 2 ^ 64
      → (o : Outcome SolTransferred) × (transfer p sys self auth lamports relayer_fee bumps bank
          ≡ ok o)
        × (o.wallet ≡ wallet)
        × (o.event.relayer_fee ≡ min relayer_fee auth.max_relayer_fee)
  unfolding transfer
  transfer_succeeds signer wallet rent verified active minimum enough seeds vt vr pays_to
        pays_relayer supply =
      let sent = move self.vault self.to lamports bank in
      let refund = min relayer_fee auth.max_relayer_fee in
      let paid = move self.vault self.relayer refund sent in
      let first =
        transfer_from_vault_accepts p wallet self.vault self.to lamports bank seeds pays_to
          (omega arith) (omega arith) in
      let second =
        refund_relayer_accepts p wallet self.vault self.relayer relayer_fee auth.max_relayer_fee
          sent seeds pays_relayer (omega (arith, move_sender self.vault self.to lamports bank vt))
          (omega
            (arith, move-le self.vault self.to lamports bank self.relayer (λ e. vr (sym e)))) in
      let o : Outcome SolTransferred = record {
        event = record {
          wallet_id = wallet.wallet_id;
          to = self.to;
          lamports = lamports;
          relayer_fee = refund;
        };
        wallet = wallet;
        bank = paid;
      } in
      let sum = checked_add_fits lamports auth.max_relayer_fee (omega arith) in
      let required = checked_add_fits (lamports + auth.max_relayer_fee) rent (omega arith) in
      let covered = le→leb (lamports + auth.max_relayer_fee + rent) (bank self.vault) enough in
      (
        o,
        rw verified (
            require_active_key-accepts wallet signer _ active
            ∙ rw minimum (rw sum (rw required (rw covered (rw first (rw second refl)))))),
        refl,
        refl,
      )
