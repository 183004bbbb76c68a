-- ===== src/Program/Lifecycle/Nonce.antt =====
-- The nonce and the wallet id along the steps, and what they mean for a signature used before.
use enclavekit_anchor.Common.{ℕ, ◌≤◌, Bytes, false, ◌≡◌, ◌≢◌, refl, sym, ◌∙◌, ap, subst, arith}
use mathlib.Core.Option.{Option, some}
use enclavekit_anchor.Encoding.Action.{Action}
use enclavekit_anchor.Program.Errors.{ok}
use enclavekit_anchor.Program.State.{SmartWallet, is_new}
use enclavekit_anchor.Program.State.WellFormed.{IsWellFormed}
use enclavekit_anchor.Program.Events.{KeyRotated}
use enclavekit_anchor.Program.Platform.{Sysvars, Platform}
use enclavekit_anchor.Program.Authorization.{Authorization, verify_enclave_authorization}
use enclavekit_anchor.Program.Authorization.Accepted.{verify_in_use, verify_refuses_replay}
use enclavekit_anchor.Program.Instructions.Outcome.{Outcome}
use enclavekit_anchor.Program.Instructions.TransferSol.Transferred.{transfer-IsTransferred}
use enclavekit_anchor.Program.Instructions.SweepVault.Swept.{sweep-IsSwept}
use enclavekit_anchor.Program.Instructions.SetGuardians.Replaced.{set_guardians-IsReplaced}
use enclavekit_anchor.Program.Instructions.CancelRotation.Cancelled.{cancel-IsCancelled}
use enclavekit_anchor.Program.Instructions.ConfirmRotation.Window.{confirm-IsConfirmed}
use enclavekit_anchor.Program.Instructions.ProposeRotation.{Proposal, rotate_now}
use enclavekit_anchor.Program.Instructions.ProposeRotation.Proposed.{
  Decided, by_owner, by_guardian, propose-IsProposed,
}
use enclavekit_anchor.Program.Lifecycle.Preservation.{IsWellFormed-used}
use enclavekit_anchor.Program.Lifecycle.Steps.{
  Keeps, transferred, swept, guardians_replaced, cancelled, proposed, confirmed, Lives, here, next,
}
use enclavekit_anchor.Program.Lifecycle.Invariant.{Keeps-IsSound}

-- The identity of a wallet over a step: its id stays and its nonce does not fall.
pub record Continues (w w' : SmartWallet) : Type 0 where
  pub same_id : w'.wallet_id ≡ w.wallet_id
  pub nonce_grows : w.nonce ≤ w'.nonce

some_eq : (x y : SmartWallet) → some x ≡ some y → x ≡ y
some_eq x y e = cc

module _ (p : Platform) where
  verify-Continues :
      (sys : Sysvars) (w v : SmartWallet) (auth : Authorization) (action : Action) (sb vb : ℕ)
      (signer : Bytes) (w' : SmartWallet)
      → IsWellFormed w
      → v ≡ w
      → verify_enclave_authorization p sys v auth action sb vb ≡ ok (signer, w')
      → Continues w w'
  verify-Continues sys w v auth action sb vb signer w' formed same h =
      let used : is_new v ≡ false = rw same (IsWellFormed-used formed) in
      let (_, written) = verify_in_use p sys v auth action sb vb used h in
      rw (written, same) (record { same_id = refl; nonce_grows = omega arith })

  Decided-Continues :
      (sys : Sysvars) (w before : SmartWallet) (signer new_key : Bytes) (event : Proposal)
      (after : SmartWallet)
      → Continues w before
      → Decided sys before signer new_key (event, after)
      → Continues w after
  unfolding rotate_now
  Decided-Continues sys w before signer new_key event after c (by_owner _ e) =
      rw (ap (λ (r : Proposal × SmartWallet). r.1) e)
        (record { same_id = c.same_id; nonce_grows = c.nonce_grows })
  Decided-Continues sys w before signer new_key event after c (by_guardian _ g) =
      rw (ap (λ (r : Proposal × SmartWallet). r.1) g.gives)
        (record { same_id = c.same_id; nonce_grows = c.nonce_grows })

  module _ (wallet_id : Bytes) where
    -- A step that leaves the account of a well-formed wallet in place keeps its id and does not
    -- lower its nonce.
    pub Keeps-Continues :
        (sys : Sysvars) (w w' : SmartWallet)
        → IsWellFormed w
        → Keeps p wallet_id sys (some w) w'
        → Continues w w'
    Keeps-Continues sys w w' formed (transferred self auth lamports fee bumps bank o _ loaded h e) =
        let t = transfer-IsTransferred p sys self auth lamports fee bumps bank o h in
        rw e
          (verify-Continues sys w self.wallet auth _ _ _ t.signer o.wallet formed loaded t.verified)
    Keeps-Continues sys w w' formed (swept self auth fee bumps bank o _ loaded h e) =
        let t = sweep-IsSwept p sys self auth fee bumps bank o h in
        rw e
          (verify-Continues sys w self.wallet auth _ _ _ t.signer o.wallet formed loaded t.verified)
    Keeps-Continues sys w w' formed
          (guardians_replaced self auth gs fee bumps bank o _ _ loaded h e) =
        let r = set_guardians-IsReplaced p sys self auth gs fee bumps bank o h in
        let c =
          verify-Continues sys w self.wallet auth _ _ _ r.signer r.before formed loaded
            r.verified in
        rw (e, r.written) (record { same_id = c.same_id; nonce_grows = c.nonce_grows })
    Keeps-Continues sys w w' formed (cancelled self auth fee bank o _ there h e) =
        let r = cancel-IsCancelled p sys self auth fee bank o h in
        let c =
          verify-Continues sys w self.wallet auth _ _ _ r.signer r.before formed
            (sym (some_eq w self.wallet there)) r.verified in
        rw (e, r.written) (record { same_id = c.same_id; nonce_grows = c.nonce_grows })
    Keeps-Continues sys w w' formed (proposed self auth new_key fee bank o _ there h e) =
        let r = propose-IsProposed p sys self auth new_key fee bank o h in
        let c =
          verify-Continues sys w self.wallet auth _ _ _ r.signer r.before formed
            (sym (some_eq w self.wallet there)) r.verified in
        rw e (Decided-Continues sys w r.before r.signer new_key o.event o.wallet c r.decided)
    Keeps-Continues sys w w' formed (confirmed self bank o there h e) =
        let c = confirm-IsConfirmed sys self bank o h in
        let same = some_eq w self.wallet there in
        rw (e, ap (λ (t : Outcome KeyRotated). t.wallet) c.written)
          (record {
            same_id = ap (λ (x : SmartWallet). x.wallet_id) (sym same);
            nonce_grows = omega (arith, ap (λ (x : SmartWallet). x.nonce) same);
          })

    -- The account after steps that leave it in place.
    pub record IsLater (w : SmartWallet) (b : Option SmartWallet) : Type 0 where
      pub later : SmartWallet
      pub there : b ≡ some later
      pub formed : IsWellFormed later
      pub continues : Continues w later

    pub Lives-IsLater :
        {w : SmartWallet} {b : Option SmartWallet}
        → IsWellFormed w
        → Lives p wallet_id (some w) b
        → IsLater w b
    Lives-IsLater {w} formed here = record {
      later = w;
      there = refl;
      formed = formed;
      continues = record { same_id = refl; nonce_grows = omega arith };
    }
    Lives-IsLater {w} formed (next {w = w'} sys l real k) =
        let before = Lives-IsLater formed l in
        let kept = subst (λ (b : Option SmartWallet). Keeps p wallet_id sys b w') before.there k in
        let step = Keeps-Continues sys before.later w' before.formed kept in
        record {
          later = w';
          there = refl;
          formed = Keeps-IsSound p wallet_id sys (some before.later) w' real before.formed kept;
          continues = record {
            same_id = step.same_id ∙ before.continues.same_id;
            nonce_grows = omega (arith, step.nonce_grows, before.continues.nonce_grows);
          };
        }

    -- An authorization that was accepted is never accepted again while the account lives on: not by
    -- a well-formed wallet whose nonce is at least the one that the acceptance left, nor after any
    -- instructions from there but a closing, none of them with a precompile key of zeros.
    pub accepted_once :
        (sys sys' : Sysvars) (start w later : SmartWallet) (auth : Authorization)
        (action action' : Action) (sb vb sb' vb' : ℕ) {signer : Bytes} {w1 : SmartWallet}
        → verify_enclave_authorization p sys start auth action sb vb ≡ ok (signer, w1)
        → w1.nonce ≤ w.nonce
        → IsWellFormed w
        → Lives p wallet_id (some w) (some later)
        → (r : Bytes × SmartWallet)
        → verify_enclave_authorization p sys' later auth action' sb' vb' ≢ ok r
    accepted_once sys sys' start w later auth action action' sb vb sb' vb' h counted formed lives =
        let l = Lives-IsLater formed lives in
        let same : later ≡ l.later = some_eq later l.later l.there in
        let used : is_new later ≡ false = rw same (IsWellFormed-used l.formed) in
        let e = ap (λ (x : SmartWallet). x.nonce) same in
        verify_refuses_replay p sys sys' start later auth action action' sb vb sb' vb' h used
          (omega (arith, e, l.continues.nonce_grows))
