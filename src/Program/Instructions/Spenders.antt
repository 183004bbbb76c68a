-- ===== src/Program/Instructions/Spenders.antt =====
-- Whose signature takes lamports out of a vault, and how much a guardian's can take.
use enclavekit_anchor.Common.{
  ℕ, ◌+◌, ◌≤◌, min, Bytes, false, ◌≡◌, ◌⊎◌, inl, inr, ◌∙◌, sym, ap, arith,
}
use mathlib.Core.Option.{some}
use enclavekit_anchor.Encoding.Action.{Action}
use enclavekit_anchor.Program.Errors.{ok}
use enclavekit_anchor.Program.State.{SmartWallet, is_new, p256_guardian}
use enclavekit_anchor.Program.Platform.{Sysvars, Platform, Bank, move}
use enclavekit_anchor.Program.Platform.Moves.{fall-move}
use enclavekit_anchor.Program.Precompile.{SignedPayload, load_secp256r1_payload}
use enclavekit_anchor.Program.Authorization.{Authorization, verify_enclave_authorization}
use enclavekit_anchor.Program.Authorization.Verified.{verify-IsVerified}
use enclavekit_anchor.Program.Authorization.Accepted.{verify_in_use}
use enclavekit_anchor.Program.Instructions.TransferSol.Transferred.{transfer-IsTransferred}
use enclavekit_anchor.Program.Instructions.SweepVault.Swept.{sweep-IsSwept}
use enclavekit_anchor.Program.Instructions.SetGuardians.Replaced.{set_guardians-IsReplaced}
use enclavekit_anchor.Program.Instructions.CancelRotation.Cancelled.{cancel-IsCancelled}
use enclavekit_anchor.Program.Instructions.ProposeRotation.{Proposal}
use enclavekit_anchor.Program.Instructions.ProposeRotation.Proposed.{
  Decided, by_owner, by_guardian, propose-IsProposed,
}
use enclavekit_anchor.Program.Instructions.CloseWallet.Closed.{close-IsClosed}
use enclavekit_anchor.Program.Instructions.Payers.{
  HasRun, transferred, swept, replaced, cancelled, proposed, closed,
}

module _ {p : Platform} {sys : Sysvars} {auth : Authorization} {relayer_fee : ℕ} {bank : Bank}
    {vault : Bytes} {after : Bank} where
  -- The wallet as the instruction loaded it.
  abbrev pub wallet_of : HasRun p sys auth relayer_fee bank vault after → SmartWallet
  wallet_of (transferred self _ _ _ _ _ _) = self.wallet
  wallet_of (swept self _ _ _ _ _) = self.wallet
  wallet_of (replaced self _ _ _ _ _ _) = self.wallet
  wallet_of (cancelled self _ _ _ _) = self.wallet
  wallet_of (proposed self _ _ _ _ _) = self.wallet
  wallet_of (closed self _ _ _ _) = self.wallet

module _ (p : Platform) (sys : Sysvars) (auth : Authorization) (relayer_fee : ℕ) (bank : Bank)
    (vault : Bytes) (after : Bank) where
  -- The key is the owner's, or a guardian's, which takes no more than the cap that it signed.
  abbrev pub MaySpend : SmartWallet → Bytes → Type 0
  MaySpend w key =
      (key ≡ w.active_key)
      ⊎ ((slot : ℕ) × (p256_guardian w key ≡ some slot)
          × (bank vault ≤ after vault + auth.max_relayer_fee))

  abbrev pub HasSpender : SmartWallet → Type 0
  HasSpender w =
      (payload : SignedPayload) × (load_secp256r1_payload sys.previous_instruction ≡ ok payload)
      × MaySpend w payload.pubkey

  -- A check that the owner's key passed.
  by_active :
      (w : SmartWallet) (action : Action) (sb vb : ℕ) (signer : Bytes) (before : SmartWallet)
      → is_new w ≡ false
      → verify_enclave_authorization p sys w auth action sb vb ≡ ok (signer, before)
      → signer ≡ before.active_key
      → HasSpender w
  by_active w action sb vb signer before used h active =
      let v = verify-IsVerified p sys w auth action sb vb signer before h in
      let (_, written) = verify_in_use p sys w auth action sb vb used h in
      (
        v.payload,
        v.loaded,
        inl (sym v.by_payload ∙ active ∙ ap (λ (x : SmartWallet). x.active_key) written),
      )

  -- A refund takes the cap at most.
  fallen :
      (from to : Bytes)
      → after ≡ move from to (min relayer_fee auth.max_relayer_fee) bank
      → bank vault ≤ after vault + auth.max_relayer_fee
  fallen from to e = omega (
    arith,
    ap (λ (b : Bank). b vault) e,
    fall-move from to (min relayer_fee auth.max_relayer_fee) bank vault,
  )

  by_proposer :
      (w : SmartWallet) (new_key : Bytes) (sb vb : ℕ) (signer : Bytes) (before : SmartWallet)
      (r : Proposal × SmartWallet)
      → is_new w ≡ false
      → verify_enclave_authorization p sys w auth (Action.propose_rotation new_key) sb vb
        ≡ ok (signer, before)
      → bank vault ≤ after vault + auth.max_relayer_fee
      → Decided sys before signer new_key r
      → HasSpender w
  unfolding p256_guardian
  by_proposer w new_key sb vb signer before r used h most (by_owner active _) =
      by_active w (Action.propose_rotation new_key) sb vb signer before used h active
  by_proposer w new_key sb vb signer before r used h most (by_guardian _ g) =
      let v =
        verify-IsVerified p sys w auth (Action.propose_rotation new_key) sb vb signer before h in
      let (_, written) =
        verify_in_use p sys w auth (Action.propose_rotation new_key) sb vb used h in
      let named : p256_guardian w v.payload.pubkey ≡ some g.slot =
        ap (p256_guardian w) (sym v.by_payload)
        ∙ ap (λ (x : SmartWallet). p256_guardian x signer) (sym written)
        ∙ g.named in
      (v.payload, v.loaded, inr (g.slot, named, most))

  -- The key that the precompile verified for a signed instruction on a wallet in use is the wallet's
  -- active key, or a P-256 guardian's; and then the vault has lost no more than the fee cap signed.
  pub spent_by_signer :
      (h : HasRun p sys auth relayer_fee bank vault after)
      → is_new (wallet_of h) ≡ false
      → HasSpender (wallet_of h)
  spent_by_signer (transferred self lamports bumps o at h e) used =
      let t = transfer-IsTransferred p sys self auth lamports relayer_fee bumps bank o h in
      by_active self.wallet _ _ _ t.signer o.wallet used t.verified t.by_active_key
  spent_by_signer (swept self bumps o at h e) used =
      let t = sweep-IsSwept p sys self auth relayer_fee bumps bank o h in
      by_active self.wallet _ _ _ t.signer o.wallet used t.verified t.by_active_key
  spent_by_signer (replaced self guardians bumps o at h e) used =
      let t = set_guardians-IsReplaced p sys self auth guardians relayer_fee bumps bank o h in
      by_active self.wallet _ _ _ t.signer t.before used t.verified t.by_active_key
  spent_by_signer (cancelled self o at h e) used =
      let t = cancel-IsCancelled p sys self auth relayer_fee bank o h in
      by_active self.wallet _ _ _ t.signer t.before used t.verified t.by_active_key
  spent_by_signer (proposed self new_key o at h e) used =
      let t = propose-IsProposed p sys self auth new_key relayer_fee bank o h in
      by_proposer self.wallet new_key _ _ t.signer t.before (o.event, o.wallet) used t.verified
        (fallen self.vault self.relayer (e ∙ t.paid)) t.decided
  spent_by_signer (closed self o at h e) used =
      let t = close-IsClosed p sys self auth relayer_fee bank o h in
      by_active self.wallet _ _ _ t.signer o.wallet used t.verified t.by_active_key
