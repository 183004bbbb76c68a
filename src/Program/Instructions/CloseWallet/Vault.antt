-- ===== src/Program/Instructions/CloseWallet/Vault.antt =====
-- The balances after `close`, and when it succeeds.
use enclavekit_anchor.Common.{ℕ, ◌+◌, ◌-◌, ◌≤◌, min, ◌≡◌, ◌≢◌, ◌∙◌, ap, arith}
use enclavekit_anchor.Encoding.Action
use enclavekit_anchor.Program.Errors.{ok}
use enclavekit_anchor.Program.Events.{WalletClosed}
use enclavekit_anchor.Program.Platform.{Sysvars, Platform, Bank}
use enclavekit_anchor.Program.Authorization.{Authorization}
use enclavekit_anchor.Program.Authorization.Payments.{two_moves_sender}
use enclavekit_anchor.Program.Instructions.Outcome.{Outcome}
use enclavekit_anchor.Program.Instructions.CloseWallet.{CloseWallet, close}
use enclavekit_anchor.Program.Instructions.CloseWallet.Closed.{close-IsClosed}

module _ (p : Platform) (sys : Sysvars) (self : CloseWallet) (auth : Authorization)
    (relayer_fee : ℕ) (bank : Bank) where
  -- Closing empties a vault that is neither the destination nor the relayer: the destination's part
  -- and the refund add up to what it held, and the refund is at most what the user signed.
  pub close_empties_vault :
      (o : Outcome WalletClosed)
      → self.vault ≢ self.to
      → self.vault ≢ self.relayer
      → close p sys self auth relayer_fee bank ≡ ok o
      → (o.bank self.vault ≡ 0)
        × (o.event.lamports + o.event.relayer_fee ≡ bank self.vault)
        × (o.event.relayer_fee ≤ auth.max_relayer_fee)
  close_empties_vault o to_apart relayer_apart h =
      let t = close-IsClosed p sys self auth relayer_fee bank o h in
      let refund = min (min relayer_fee auth.max_relayer_fee) (bank self.vault) in
      let left : o.bank self.vault ≡ bank self.vault - (bank self.vault - refund) - refund =
        ap (λ (b : Bank). b self.vault) t.paid
        ∙ two_moves_sender p o.wallet self.vault self.to self.relayer _ refund bank to_apart
            relayer_apart in
      let sent = ap (λ (e : WalletClosed). e.lamports) t.told in
      let fee = ap (λ (e : WalletClosed). e.relayer_fee) t.told in
      let covered = t.covered in (omega arith, omega arith, omega arith)
