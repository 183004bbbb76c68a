-- ===== src/Program/Instructions/Payers.antt =====
-- Who pays: of all addresses only the instruction's vault can end with fewer lamports.
use enclavekit_anchor.Common.{ℕ, ◌≤◌, List, Bytes, ◌≡◌, ◌≢◌, ◌∙◌, sym, ap, arith}
use enclavekit_anchor.Program.Errors.{ok}
use enclavekit_anchor.Program.State.{Guardian}
use enclavekit_anchor.Program.Events.{
  SolTransferred, VaultSwept, WalletClosed, GuardiansSet, RotationCancelled,
}
use enclavekit_anchor.Program.Platform.{Sysvars, Platform, Bank, move}
use enclavekit_anchor.Program.Platform.Moves.{le-move}
use enclavekit_anchor.Program.Authorization.{Authorization}
use enclavekit_anchor.Program.Instructions.Outcome.{Outcome, Bumps}
use enclavekit_anchor.Program.Instructions.TransferSol.{TransferSol, transfer}
use enclavekit_anchor.Program.Instructions.TransferSol.Transferred.{transfer-IsTransferred}
use enclavekit_anchor.Program.Instructions.SweepVault.{SweepVault, sweep}
use enclavekit_anchor.Program.Instructions.SweepVault.Swept.{sweep-IsSwept}
use enclavekit_anchor.Program.Instructions.SetGuardians.{SetGuardians, set_guardians}
use enclavekit_anchor.Program.Instructions.SetGuardians.Replaced.{set_guardians-IsReplaced}
use enclavekit_anchor.Program.Instructions.CancelRotation.{CancelRotation, cancel}
use enclavekit_anchor.Program.Instructions.CancelRotation.Cancelled.{cancel-IsCancelled}
use enclavekit_anchor.Program.Instructions.ProposeRotation.{ProposeRotation, Proposal, propose}
use enclavekit_anchor.Program.Instructions.ProposeRotation.Proposed.{propose-IsProposed}
use enclavekit_anchor.Program.Instructions.CloseWallet.{CloseWallet, close}
use enclavekit_anchor.Program.Instructions.CloseWallet.Closed.{close-IsClosed}

module _ (p : Platform) (sys : Sysvars) (auth : Authorization) (relayer_fee : ℕ) (bank : Bank) where
  -- A signed instruction that succeeded on this vault, and the lamports after it.
  pub data HasRun (vault : Bytes) (after : Bank) : Type 0 where
    transferred :
        (self : TransferSol) (lamports : ℕ) (bumps : Bumps) (o : Outcome SolTransferred)
        → vault ≡ self.vault
        → transfer p sys self auth lamports relayer_fee bumps bank ≡ ok o
        → after ≡ o.bank
        → HasRun vault after
    swept :
        (self : SweepVault) (bumps : Bumps) (o : Outcome VaultSwept)
        → vault ≡ self.vault
        → sweep p sys self auth relayer_fee bumps bank ≡ ok o
        → after ≡ o.bank
        → HasRun vault after
    replaced :
        (self : SetGuardians) (guardians : List Guardian) (bumps : Bumps) (o : Outcome GuardiansSet)
        → vault ≡ self.vault
        → set_guardians p sys self auth guardians relayer_fee bumps bank ≡ ok o
        → after ≡ o.bank
        → HasRun vault after
    cancelled :
        (self : CancelRotation) (o : Outcome RotationCancelled)
        → vault ≡ self.vault
        → cancel p sys self auth relayer_fee bank ≡ ok o
        → after ≡ o.bank
        → HasRun vault after
    proposed :
        (self : ProposeRotation) (new_key : Bytes) (o : Outcome Proposal)
        → vault ≡ self.vault
        → propose p sys self auth new_key relayer_fee bank ≡ ok o
        → after ≡ o.bank
        → HasRun vault after
    closed :
        (self : CloseWallet) (o : Outcome WalletClosed)
        → vault ≡ self.vault
        → close p sys self auth relayer_fee bank ≡ ok o
        → after ≡ o.bank
        → HasRun vault after

  one_move :
      (vault to address : Bytes) (n : ℕ) (after : Bank)
      → address ≢ vault
      → after ≡ move vault to n bank
      → bank address ≤ after address
  one_move vault to address n after apart e =
      omega (arith, ap (λ (b : Bank). b address) e, le-move vault to n bank address apart)

  two_moves :
      (vault to to' address : Bytes) (n n' : ℕ) (after : Bank)
      → address ≢ vault
      → after ≡ move vault to' n' (move vault to n bank)
      → bank address ≤ after address
  two_moves vault to to' address n n' after apart e = omega (
    arith,
    ap (λ (b : Bank). b address) e,
    le-move vault to n bank address apart,
    le-move vault to' n' (move vault to n bank) address apart,
  )

  -- The payments of a signed instruction that succeeds lower the lamports of no address but its vault's;
  -- the rent of the state account, which the relayer advances, is not among them.
  pub only_vault_pays :
      (vault address : Bytes) (after : Bank)
      → HasRun vault after
      → address ≢ vault
      → bank address ≤ after address
  only_vault_pays vault address after (transferred self lamports bumps o at h e) apart =
      two_moves self.vault self.to self.relayer address _ _ after (λ same. apart (same ∙ sym at))
        (e ∙ (transfer-IsTransferred p sys self auth lamports relayer_fee bumps bank o h).paid)
  only_vault_pays vault address after (swept self bumps o at h e) apart =
      two_moves self.vault self.to self.relayer address _ _ after (λ same. apart (same ∙ sym at))
        (e ∙ (sweep-IsSwept p sys self auth relayer_fee bumps bank o h).paid)
  only_vault_pays vault address after (replaced self guardians bumps o at h e) apart =
      one_move self.vault self.relayer address _ after (λ same. apart (same ∙ sym at))
        (e ∙ (set_guardians-IsReplaced p sys self auth guardians relayer_fee bumps bank o h).paid)
  only_vault_pays vault address after (cancelled self o at h e) apart =
      one_move self.vault self.relayer address _ after (λ same. apart (same ∙ sym at))
        (e ∙ (cancel-IsCancelled p sys self auth relayer_fee bank o h).paid)
  only_vault_pays vault address after (proposed self new_key o at h e) apart =
      one_move self.vault self.relayer address _ after (λ same. apart (same ∙ sym at))
        (e ∙ (propose-IsProposed p sys self auth new_key relayer_fee bank o h).paid)
  only_vault_pays vault address after (closed self o at h e) apart =
      two_moves self.vault self.to self.relayer address _ _ after (λ same. apart (same ∙ sym at))
        (e ∙ (close-IsClosed p sys self auth relayer_fee bank o h).paid)
