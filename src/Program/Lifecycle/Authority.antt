-- ===== src/Program/Lifecycle/Authority.antt =====
-- Who can change the active key.
use enclavekit_anchor.Common.{ℕ, ℤ, ◌≤ℤ◌, Bytes, true, false, ◌≡◌, ◌≢◌, sym, ◌∙◌, ap, subst}
use mathlib.Core.Option.{some}
use enclavekit_anchor.Encoding.Action.{Action}
use enclavekit_anchor.Program.Errors.{ok}
use enclavekit_anchor.Program.State.{SmartWallet, opens_at, closes_at, is_new}
use enclavekit_anchor.Program.State.WellFormed.{IsWellFormed}
use enclavekit_anchor.Program.Events.{KeyRotated}
use enclavekit_anchor.Program.Platform.{Sysvars, Platform}
use enclavekit_anchor.Program.Authorization.{Authorization, verify_enclave_authorization}
use enclavekit_anchor.Program.Authorization.Accepted.{verify_in_use}
use enclavekit_anchor.Program.Instructions.Outcome.{Outcome}
use enclavekit_anchor.Program.Instructions.TransferSol.Transferred.{transfer-IsTransferred}
use enclavekit_anchor.Program.Instructions.SweepVault.Swept.{sweep-IsSwept}
use enclavekit_anchor.Program.Instructions.SetGuardians.Replaced.{set_guardians-IsReplaced}
use enclavekit_anchor.Program.Instructions.CancelRotation.Cancelled.{cancel-IsCancelled}
use enclavekit_anchor.Program.Instructions.ConfirmRotation.Window.{confirm-IsConfirmed}
use enclavekit_anchor.Program.Instructions.ProposeRotation.{Proposal, rotate_now}
use enclavekit_anchor.Program.Instructions.ProposeRotation.Proposed.{
  Decided, by_owner, by_guardian, propose-IsProposed,
}
use enclavekit_anchor.Program.Lifecycle.Preservation.{IsWellFormed-used}
use enclavekit_anchor.Program.Lifecycle.Steps.{
  Keeps, transferred, swept, guardians_replaced, cancelled, proposed, confirmed,
}

-- The two ways in which a step moves a wallet to another key.
pub data IsKeyChange (p : Platform) (sys : Sysvars) (w w' : SmartWallet) : Type 0 where
  -- The active key signed for the new key.
  signed_by_active_key :
      (auth : Authorization) (before : SmartWallet)
      → verify_enclave_authorization p sys w auth
          (Action.propose_rotation w'.active_key)
          w.state_bump
          w.vault_bump
        ≡ ok (w.active_key, before)
      → IsKeyChange p sys w w'
  -- A pending proposal for the new key was confirmed inside its window.
  proposal_confirmed :
      (now : ℤ)
      → w.rotation.pending ≡ true
      → w'.active_key ≡ w.rotation.proposal.new_key
      → sys.unix_timestamp ≡ ok now
      → opens_at w.rotation.proposal ≤ℤ now
      → now ≤ℤ closes_at w.rotation.proposal
      → IsKeyChange p sys w w'

some_eq : (x y : SmartWallet) → some x ≡ some y → x ≡ y
some_eq x y e = cc

module _ (p : Platform) where
  verified_key :
      (sys : Sysvars) (w v : SmartWallet) (auth : Authorization) (action : Action) (sb vb : ℕ)
      (signer : Bytes) (w' : SmartWallet)
      → IsWellFormed w
      → v ≡ w
      → verify_enclave_authorization p sys v auth action sb vb ≡ ok (signer, w')
      → w'.active_key ≡ w.active_key
  verified_key sys w v auth action sb vb signer w' formed same h =
      let used : is_new v ≡ false = rw same (IsWellFormed-used formed) in
      let (_, written) = verify_in_use p sys v auth action sb vb used h in
      ap (λ (x : SmartWallet). x.active_key) written ∙ ap (λ (x : SmartWallet). x.active_key) same

  -- A step after which a well-formed wallet has another active key is a rotation signed by the
  -- active key, or the confirmation, inside its window, of a pending proposal for that key.
  pub new_active_key_authorised :
      (wallet_id : Bytes) (sys : Sysvars) (w w' : SmartWallet)
      → IsWellFormed w
      → Keeps p wallet_id sys (some w) w'
      → w'.active_key ≢ w.active_key
      → IsKeyChange p sys w w'
  unfolding rotate_now
  new_active_key_authorised wallet_id sys w w' formed
        (transferred self auth lamports fee bumps bank o _ loaded h e) changed =
      let t = transfer-IsTransferred p sys self auth lamports fee bumps bank o h in
      absurd (
        changed (
          ap (λ (x : SmartWallet). x.active_key) e
          ∙ verified_key sys w self.wallet auth _ _ _ t.signer o.wallet formed loaded t.verified))
  new_active_key_authorised wallet_id sys w w' formed
        (swept self auth fee bumps bank o _ loaded h e) changed =
      let t = sweep-IsSwept p sys self auth fee bumps bank o h in
      absurd (
        changed (
          ap (λ (x : SmartWallet). x.active_key) e
          ∙ verified_key sys w self.wallet auth _ _ _ t.signer o.wallet formed loaded t.verified))
  new_active_key_authorised wallet_id sys w w' formed
        (guardians_replaced self auth gs fee bumps bank o _ _ loaded h e) changed =
      let r = set_guardians-IsReplaced p sys self auth gs fee bumps bank o h in
      absurd (
        changed (
          ap (λ (x : SmartWallet). x.active_key) (e ∙ r.written)
          ∙ verified_key sys w self.wallet auth _ _ _ r.signer r.before formed loaded r.verified))
  new_active_key_authorised wallet_id sys w w' formed (cancelled self auth fee bank o _ there h e)
        changed =
      let r = cancel-IsCancelled p sys self auth fee bank o h in
      absurd (
        changed (
          ap (λ (x : SmartWallet). x.active_key) (e ∙ r.written)
          ∙ verified_key sys w self.wallet auth _ _ _ r.signer r.before formed
              (sym (some_eq w self.wallet there)) r.verified))
  new_active_key_authorised wallet_id sys w w' formed
        (proposed self auth new_key fee bank o _ there h e) changed =
      let r = propose-IsProposed p sys self auth new_key fee bank o h in
      let same = sym (some_eq w self.wallet there) in
      let kept =
        verified_key sys w self.wallet auth _ _ _ r.signer r.before formed same r.verified in
      decide r.before r.signer r.decided kept (
        subst
          (λ (v : SmartWallet).
            verify_enclave_authorization p sys v auth (Action.propose_rotation new_key) v.state_bump
              v.vault_bump
            ≡ ok (r.signer, r.before))
          same r.verified)
    where
      decide :
          (before : SmartWallet) (signer : Bytes)
          → Decided sys before signer new_key (o.event, o.wallet)
          → before.active_key ≡ w.active_key
          → verify_enclave_authorization p sys w auth
              (Action.propose_rotation new_key)
              w.state_bump
              w.vault_bump
            ≡ ok (signer, before)
          → IsKeyChange p sys w w'
      decide before signer (by_guardian _ g) kept verified = absurd (
          changed (
            ap (λ (x : SmartWallet). x.active_key) e
            ∙ ap (λ (r : Proposal × SmartWallet). r.1.active_key) g.gives
            ∙ kept))
      decide before signer (by_owner owner gives) kept verified =
          let key =
            ap (λ (x : SmartWallet). x.active_key) e
            ∙ ap (λ (r : Proposal × SmartWallet). r.1.active_key) gives in
          signed_by_active_key auth before (
            subst
              (λ (k : Bytes).
                verify_enclave_authorization p sys w auth (Action.propose_rotation k) w.state_bump
                  w.vault_bump
                ≡ ok (w.active_key, before))
              (sym key)
              (subst
                (λ (s : Bytes).
                  verify_enclave_authorization p sys w auth (Action.propose_rotation new_key)
                    w.state_bump w.vault_bump
                  ≡ ok (s, before))
                (owner ∙ kept) verified))
  new_active_key_authorised wallet_id sys w w' formed (confirmed self bank o there h e) changed =
      let c = confirm-IsConfirmed sys self bank o h in
      let same = sym (some_eq w self.wallet there) in
      let written = ap (λ (t : Outcome KeyRotated). t.wallet.active_key) c.written in
      proposal_confirmed c.now
        (subst (λ (v : SmartWallet). v.rotation.pending ≡ true) same c.was_pending)
        (ap (λ (x : SmartWallet). x.active_key) e
          ∙ written
          ∙ ap (λ (x : SmartWallet). x.rotation.proposal.new_key) same)
        c.clock (subst (λ (v : SmartWallet). opens_at v.rotation.proposal ≤ℤ c.now) same c.opened)
        (subst (λ (v : SmartWallet). c.now ≤ℤ closes_at v.rotation.proposal) same c.not_closed)
