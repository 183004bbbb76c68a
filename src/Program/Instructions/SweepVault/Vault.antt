-- ===== src/Program/Instructions/SweepVault/Vault.antt =====
-- The balances after `sweep`, and when it succeeds.
use enclavekit_anchor.Common.{
  ℕ, ◌+◌, ◌-◌, ◌≤◌, ◌<◌, min, lt→leb_false, Bytes, ◌≡◌, ◌≢◌, refl, ◌∙◌, ap, arith,
}
use enclavekit_anchor.Encoding.Action
use enclavekit_anchor.Program.Errors.{ok, err, enclave_kit, insufficient_vault_balance}
use enclavekit_anchor.Program.State.{SmartWallet}
use enclavekit_anchor.Program.Events.{VaultSwept}
use enclavekit_anchor.Program.Platform.{Sysvars, Platform, Bank}
use enclavekit_anchor.Program.Authorization.{Authorization, verify_enclave_authorization}
use enclavekit_anchor.Program.Authorization.Verified.{require_active_key-accepts}
use enclavekit_anchor.Program.Authorization.Payments.{two_moves_sender}
use enclavekit_anchor.Program.Instructions.Outcome.{Outcome, Bumps}
use enclavekit_anchor.Program.Instructions.SweepVault.{SweepVault, sweep}
use enclavekit_anchor.Program.Instructions.SweepVault.Swept.{sweep-IsSwept}

module _ (p : Platform) (sys : Sysvars) (self : SweepVault) (auth : Authorization) (relayer_fee : ℕ)
    (bumps : Bumps) (bank : Bank) where
  -- A sweep from a vault that is neither the destination nor the relayer leaves it at 0: the
  -- destination's part and the refund add up to what it held, and the refund is at most what the
  -- user signed.
  pub sweep_empties_vault :
      (o : Outcome VaultSwept)
      → self.vault ≢ self.to
      → self.vault ≢ self.relayer
      → sweep p sys self auth relayer_fee bumps bank ≡ ok o
      → (o.bank self.vault ≡ 0)
        × (o.event.lamports + o.event.relayer_fee ≡ bank self.vault)
        × (o.event.relayer_fee ≤ auth.max_relayer_fee)
  sweep_empties_vault o to_apart relayer_apart h =
      let t = sweep-IsSwept p sys self auth relayer_fee bumps bank o h in
      let refund = min relayer_fee auth.max_relayer_fee in
      let left : o.bank self.vault ≡ bank self.vault - (bank self.vault - refund) - refund =
        ap (λ (b : Bank). b self.vault) t.paid
        ∙ two_moves_sender p o.wallet self.vault self.to self.relayer _ refund bank to_apart
            relayer_apart in
      let sent = ap (λ (e : VaultSwept). e.lamports) t.told in
      let fee = ap (λ (e : VaultSwept). e.relayer_fee) t.told in
      let covered = t.covered in (omega arith, omega arith, omega arith)

  -- A sweep signed by the active key fails with `InsufficientVaultBalance` when the refund
  -- asked, up to the cap, is more than the vault holds.
  pub sweep_refused :
      (signer : Bytes) (wallet : SmartWallet)
      → verify_enclave_authorization p sys self.wallet auth
          (Action.sweep_vault self.to)
          bumps.wallet
          bumps.vault
        ≡ ok (signer, wallet)
      → signer ≡ wallet.active_key
      → bank self.vault < min relayer_fee auth.max_relayer_fee
      → sweep p sys self auth relayer_fee bumps bank ≡ err (enclave_kit insufficient_vault_balance)
  unfolding sweep
  sweep_refused signer wallet verified active short = rw verified (
      require_active_key-accepts wallet signer _ active
      ∙ rw (lt→leb_false (min relayer_fee auth.max_relayer_fee) (bank self.vault) short) refl)
