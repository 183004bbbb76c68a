-- ===== src/Program/Instructions/ConfirmRotation/Timelock.antt =====
-- A proposal waits for its whole delay and lapses after its window; the errors of `confirm`.
use enclavekit_anchor.Common.{
  ℤ, pos, ◌+ℤ◌, +ℤ_parts, ◌≤ℤ◌, ◌<ℤ◌, leb_ℤ, IsI64, i64_max, saturating_add, true, false, ◌≡◌,
  arith,
}
use enclavekit_anchor.Program.Errors.{
  Error, ok, err, enclave_kit, no_pending_rotation, rotation_too_early, rotation_expired,
}
use enclavekit_anchor.Program.State.{PendingRotation, get_rotation, opens_at, closes_at, is_expired}
use enclavekit_anchor.Program.Events.{KeyRotated}
use enclavekit_anchor.Program.Platform.{Sysvars, Bank}
use enclavekit_anchor.Program.Instructions.Outcome.{Outcome}
use enclavekit_anchor.Program.Instructions.ConfirmRotation.{ConfirmRotation, confirm}
use enclavekit_anchor.Program.Instructions.ConfirmRotation.Window.{confirm-IsConfirmed}

-- Below the end of `i64` a saturated sum is the sum.
saturating_add_exact :
    (a b now : ℤ)
    → IsI64 a
    → pos 0 ≤ℤ b
    → now <ℤ i64_max
    → saturating_add a b ≤ℤ now
    → a +ℤ b ≤ℤ now
unfolding saturating_add
saturating_add_exact a b now ia pb below h = ground (arith, +ℤ_parts a b)

saturating_add-le : (a b : ℤ) → IsI64 a → pos 0 ≤ℤ b → saturating_add a b ≤ℤ a +ℤ b
unfolding saturating_add
saturating_add-le a b ia pb = ground (arith, +ℤ_parts a b)

saturating_add-IsI64 : (a b : ℤ) → IsI64 a → pos 0 ≤ℤ b → IsI64 (saturating_add a b)
unfolding saturating_add
saturating_add-IsI64 a b ia pb = ground (arith, +ℤ_parts a b)

-- A proposal with a time in `i64` that is confirmed, at a time before the last second of `i64`, was
-- made at least 72 hours and at most 72 hours and 7 days before.
pub confirm_timelock :
    (sys : Sysvars) (self : ConfirmRotation) (bank : Bank) (o : Outcome KeyRotated) (now : ℤ)
    → IsI64 self.wallet.rotation.proposal.proposed_at
    → sys.unix_timestamp ≡ ok now
    → now <ℤ i64_max
    → confirm sys self bank ≡ ok o
    → (self.wallet.rotation.proposal.proposed_at +ℤ pos 259200 ≤ℤ now)
      × (now ≤ℤ self.wallet.rotation.proposal.proposed_at +ℤ pos 259200 +ℤ pos 604800)
unfolding opens_at closes_at
confirm_timelock sys self bank o now fits clock below h =
    let c = confirm-IsConfirmed sys self bank o h in
    let at = self.wallet.rotation.proposal.proposed_at in
    let same : c.now ≡ now = cc (c.clock) in
    let opened : saturating_add at (pos 259200) ≤ℤ now = rw same at c.opened in
    let open_i64 = saturating_add-IsI64 at (pos 259200) fits (omega arith) in
    let lapses : now ≤ℤ saturating_add (saturating_add at (pos 259200)) (pos 604800) =
      rw same at c.not_closed in
    (
      saturating_add_exact at (pos 259200) now fits (omega arith) below opened,
      omega (
        arith,
        lapses,
        saturating_add-le at (pos 259200) fits (omega arith),
        saturating_add-le (saturating_add at (pos 259200)) (pos 604800) open_i64 (omega arith),
        +ℤ_parts at (pos 259200),
        +ℤ_parts (saturating_add at (pos 259200)) (pos 604800),
        +ℤ_parts (at +ℤ pos 259200) (pos 604800),
      ),
    )

not-le→leb_ℤ : (a b : ℤ) → b <ℤ a → leb_ℤ a b ≡ false
not-le→leb_ℤ a b h = ground arith

le→leb_ℤ : (a b : ℤ) → a ≤ℤ b → leb_ℤ a b ≡ true
le→leb_ℤ a b h = ground arith

past_is_expired :
    (held : PendingRotation) (now : ℤ) → closes_at held <ℤ now → is_expired held now ≡ true
unfolding is_expired
past_is_expired held now h = ground arith

module _ (sys : Sysvars) (self : ConfirmRotation) where
  -- Why a confirmation is refused.
  pub data IsUnconfirmable : Error → Type 0 where
    nothing_pending :
        self.wallet.rotation.pending ≡ false → IsUnconfirmable (enclave_kit no_pending_rotation)
    too_early :
        (now : ℤ)
        → self.wallet.rotation.pending ≡ true
        → sys.unix_timestamp ≡ ok now
        → now <ℤ opens_at self.wallet.rotation.proposal
        → IsUnconfirmable (enclave_kit rotation_too_early)
    too_late :
        (now : ℤ)
        → self.wallet.rotation.pending ≡ true
        → sys.unix_timestamp ≡ ok now
        → opens_at self.wallet.rotation.proposal ≤ℤ now
        → closes_at self.wallet.rotation.proposal <ℤ now
        → IsUnconfirmable (enclave_kit rotation_expired)

  -- Nothing pending, a clock before the proposal opens, and one past its window are refused, each
  -- with its own error.
  pub confirm_errors : (bank : Bank) {e : Error} → IsUnconfirmable e → confirm sys self bank ≡ err e
  unfolding confirm get_rotation
  confirm_errors bank (nothing_pending idle) = rw idle
  confirm_errors bank (too_early now was clock early) =
      let held = self.wallet.rotation.proposal in
      rw was (rw clock (rw (not-le→leb_ℤ (opens_at held) now early)))
  confirm_errors bank (too_late now was clock opened late) =
      let held = self.wallet.rotation.proposal in
      rw was
        (rw clock (rw (le→leb_ℤ (opens_at held) now opened) (rw (past_is_expired held now late))))
