-- ===== src/Program/Lifecycle/Spec/Refined.antt =====
-- The instructions against the specification: each step of the account is a step of the wallet that it
-- stands for, by the signer whose signature the precompile verified.
use enclavekit_anchor.Common.{
  ℤ, Bytes, bytes_eq, bytes_eq_refl, false, map, length-map, ◌≡◌, ◌≢◌, refl, sym, ap, ◌∙◌, subst,
}
use mathlib.Core.Bool.{false≢true}
use mathlib.Core.Option.{Option, none, some}
use enclavekit_anchor.Program.Errors.{ok, ok_injective}
use enclavekit_anchor.Program.State.{SmartWallet, guardian_slot_from, get_rotation, new_rotation}
use enclavekit_anchor.Program.State.Guardians.{p256_guardian_first}
use enclavekit_anchor.Program.Platform.{Sysvars, Platform}
use enclavekit_anchor.Program.Events.{KeyRotated}
use enclavekit_anchor.Program.Instructions.Outcome.{Outcome}
use enclavekit_anchor.Program.Instructions.TransferSol.Transferred.{transfer-IsTransferred}
use enclavekit_anchor.Program.Instructions.SweepVault.Swept.{sweep-IsSwept}
use enclavekit_anchor.Program.Instructions.SetGuardians.Replaced.{set_guardians-IsReplaced}
use enclavekit_anchor.Program.Instructions.CancelRotation.Cancelled.{cancel-IsCancelled}
use enclavekit_anchor.Program.Instructions.ConfirmRotation.Window.{confirm-IsConfirmed}
use enclavekit_anchor.Program.Instructions.CloseWallet.Closed.{close-IsClosed}
use enclavekit_anchor.Program.Instructions.ProposeRotation.{Proposal, rotate_now}
use enclavekit_anchor.Program.Instructions.ProposeRotation.Proposed.{
  Decided, by_owner, by_guardian, propose-IsProposed,
}
use enclavekit_anchor.Program.Lifecycle.Steps.{
  Keeps, transferred, swept, guardians_replaced, cancelled, proposed, confirmed, Closes, closed,
}
use enclavekit_anchor.Program.Lifecycle.Invariant.{IsSound}
use enclavekit_anchor.Program.Lifecycle.Spec.{
  guardian_key, seen_as, account_seen_as, IsDisplaceable, Counts, Step, owner_pays, owner_names,
  owner_cancels, owner_moves, guardian_proposes, anyone_confirms, owner_closes,
}
use enclavekit_anchor.Program.Lifecycle.Spec.Opening.{
  IsSigner, get_elem?-map, guardian_key_named, get_rotation_pending, free-IsDisplaceable, waiting,
  verify-IsSigner, verify-Counts, verify-Opens,
}

same_time :
    (sys : Sysvars) (now now' : ℤ)
    → sys.unix_timestamp ≡ ok now
    → sys.unix_timestamp ≡ ok now'
    → now' ≡ now
same_time sys now now' e e' = ok_injective now' now (sym e' ∙ e)

module _ (p : Platform) (wallet_id : Bytes) (sys : Sysvars) (now : ℤ)
    (clock : sys.unix_timestamp ≡ ok now) where
  -- What an instruction did to the account is a step of the wallet, by a signer that the precompile
  -- verified or by nobody.
  abbrev pub IsStep : Option SmartWallet → Option SmartWallet → Type 0
  IsStep a b =
      (signer : Option Bytes) × IsSigner sys signer
      × Step p.sha256 wallet_id now signer (account_seen_as a) (account_seen_as b)

  -- A proposal is a step of the owner or of the guardian who signed it.
  Decided-IsStep :
      (a : Option SmartWallet) (before : SmartWallet) (signer new_key : Bytes)
      (r : Proposal × SmartWallet)
      → IsSigner sys (some signer)
      → Counts (account_seen_as a) (seen_as before)
      → Decided sys before signer new_key r
      → IsStep a (some r.1)
  unfolding seen_as rotate_now new_rotation get_rotation
  Decided-IsStep a before signer new_key r verified counted (by_owner active e) = (
    some signer,
    verified,
    owner_moves (seen_as before) new_key (ap (λ (k : Bytes). some k) active) counted
        (ap (λ (t : Proposal × SmartWallet). some (seen_as t.1)) e),
  )
  Decided-IsStep a before signer new_key r verified counted (by_guardian other g) =
      let (slot, at, (kind, same), _) = p256_guardian_first before signer g.slot g.named in
      let time = same_time sys now g.now clock g.clock in
      (
        some signer,
        verified,
        guardian_proposes (seen_as before) signer new_key g.slot refl
            (differs signer before.active_key other) counted
            (get_elem?-map before.guardians g.slot slot at
              ∙ ap (λ (k : Option Bytes). some k) (guardian_key_named slot signer kind same))
            (subst (λ (n : ℤ). IsDisplaceable g.slot n (get_rotation before.rotation)) time
              (free-IsDisplaceable (get_rotation before.rotation) g.slot g.now g.free))
            (ap (λ (t : Proposal × SmartWallet). some (seen_as t.1)) g.gives
              ∙ ap
                  (λ (n : ℤ). some (
                    waiting before
                      (record { new_key = new_key; proposed_at = n; proposed_by = g.slot })))
                  time),
      )
    where
      differs : (x y : Bytes) → bytes_eq x y ≡ false → x ≢ y
      differs x y h e = false≢true (sym h ∙ ap (bytes_eq x) (sym e) ∙ bytes_eq_refl x)

  Keeps-IsStep :
      (a : Option SmartWallet) (w' : SmartWallet)
      → IsSound a
      → Keeps p wallet_id sys a w'
      → IsStep a (some w')
  unfolding seen_as get_rotation
  Keeps-IsStep a w' sound (transferred self auth lamports fee bumps bank o id loaded h e) =
      let t = transfer-IsTransferred p sys self auth lamports fee bumps bank o h in
      let opens =
        verify-Opens p sys wallet_id a self.wallet auth _ bumps.wallet bumps.vault t.signer o.wallet
          sound id loaded t.verified in
      (
        some t.signer,
        verify-IsSigner p sys self.wallet auth _ _ _ t.signer o.wallet t.verified,
        owner_pays (seen_as o.wallet) (ap (λ (k : Bytes). some k) t.by_active_key)
            (rw t.by_active_key at opens) (ap (λ (w : SmartWallet). some (seen_as w)) e),
      )
  Keeps-IsStep a w' sound (swept self auth fee bumps bank o id loaded h e) =
      let t = sweep-IsSwept p sys self auth fee bumps bank o h in
      let opens =
        verify-Opens p sys wallet_id a self.wallet auth _ bumps.wallet bumps.vault t.signer o.wallet
          sound id loaded t.verified in
      (
        some t.signer,
        verify-IsSigner p sys self.wallet auth _ _ _ t.signer o.wallet t.verified,
        owner_pays (seen_as o.wallet) (ap (λ (k : Bytes). some k) t.by_active_key)
            (rw t.by_active_key at opens) (ap (λ (w : SmartWallet). some (seen_as w)) e),
      )
  Keeps-IsStep a w' sound
        (guardians_replaced self auth guardians fee bumps bank o id three loaded h e) =
      let t = set_guardians-IsReplaced p sys self auth guardians fee bumps bank o h in
      let opens =
        verify-Opens p sys wallet_id a self.wallet auth _ bumps.wallet bumps.vault t.signer t.before
          sound id loaded t.verified in
      (
        some t.signer,
        verify-IsSigner p sys self.wallet auth _ _ _ t.signer t.before t.verified,
        owner_names (seen_as t.before) (map guardian_key (map guardian_slot_from guardians))
            (ap (λ (k : Bytes). some k) t.by_active_key) (rw t.by_active_key at opens)
            (length-map (map guardian_slot_from guardians) guardian_key
              ∙ length-map guardians guardian_slot_from
              ∙ three)
            (ap (λ (w : SmartWallet). some (seen_as w)) (e ∙ t.written)),
      )
  Keeps-IsStep a w' sound (cancelled self auth fee bank o id there h e) =
      let t = cancel-IsCancelled p sys self auth fee bank o h in
      (
        some t.signer,
        verify-IsSigner p sys self.wallet auth _ _ _ t.signer t.before t.verified,
        owner_cancels (seen_as t.before) t.before.rotation.proposal
            (ap (λ (k : Bytes). some k) t.by_active_key)
            (verify-Counts p sys a self.wallet auth _ _ _ t.signer t.before sound there t.verified)
            (get_rotation_pending t.before.rotation t.was_pending)
            (ap (λ (w : SmartWallet). some (seen_as w)) (e ∙ t.written)),
      )
  Keeps-IsStep a w' sound (proposed self auth new_key fee bank o id there h e) =
      let t = propose-IsProposed p sys self auth new_key fee bank o h in
      rw e (
        Decided-IsStep a t.before t.signer new_key (o.event, o.wallet)
          (verify-IsSigner p sys self.wallet auth _ _ _ t.signer t.before t.verified)
          (verify-Counts p sys a self.wallet auth _ _ _ t.signer t.before sound there t.verified)
          t.decided)
  Keeps-IsStep a w' sound (confirmed self bank o there h e) =
      let t = confirm-IsConfirmed sys self bank o h in
      let time = same_time sys now t.now clock t.clock in
      (
        none,
        tt,
        anyone_confirms (seen_as self.wallet) self.wallet.rotation.proposal refl
            (ap account_seen_as there) (get_rotation_pending self.wallet.rotation t.was_pending)
            (rw time at t.opened) (rw time at t.not_closed)
            (ap (λ (w : SmartWallet). some (seen_as w))
              (e ∙ ap (λ (x : Outcome KeyRotated). x.wallet) t.written)),
      )

  Closes-IsStep : (a : Option SmartWallet) → IsSound a → Closes p wallet_id sys a → IsStep a none
  unfolding seen_as
  Closes-IsStep a sound (closed self auth fee bank o id there h) =
      let t = close-IsClosed p sys self auth fee bank o h in
      (
        some t.signer,
        verify-IsSigner p sys self.wallet auth _ _ _ t.signer o.wallet t.verified,
        owner_closes (seen_as o.wallet) (ap (λ (k : Bytes). some k) t.by_active_key)
            (verify-Counts p sys a self.wallet auth _ _ _ t.signer o.wallet sound there t.verified)
            refl,
      )

  -- What an instruction makes of the account `a`: it stays, or it is closed.
  pub data HasActed (a b : Option SmartWallet) : Type 0 where
    kept : (w' : SmartWallet) → Keeps p wallet_id sys a w' → b ≡ some w' → HasActed a b
    removed : Closes p wallet_id sys a → b ≡ none → HasActed a b

  -- Every instruction that succeeds on a sound account, at the time that the clock shows, is a step of
  -- the specification between the wallets that the account stands for before and after. The step is
  -- one that its signer may take, and the signer is the key of the precompile instruction before it;
  -- only a confirmation has no signer.
  pub HasActed-IsStep : (a b : Option SmartWallet) → IsSound a → HasActed a b → IsStep a b
  HasActed-IsStep a b sound (kept w' k e) = rw e (Keeps-IsStep a w' sound k)
  HasActed-IsStep a b sound (removed c e) = rw e (Closes-IsStep a sound c)
