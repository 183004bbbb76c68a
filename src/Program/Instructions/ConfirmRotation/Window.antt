-- ===== src/Program/Instructions/ConfirmRotation/Window.antt =====
-- When `confirm` applies a proposal, and what it writes.
use enclavekit_anchor.Common.{ℤ, ◌≤ℤ◌, leb_ℤ, true, false, not, ◌≡◌, refl, sym, ◌∙◌, ap, arith}
use enclavekit_anchor.Program.Errors.{
  ok, ok_or, bind_ok, require_ok, ok_injective, enclave_kit, no_pending_rotation,
}
use enclavekit_anchor.Program.State.{
  SmartWallet, PendingRotation, empty_rotation_slot, get_rotation, opens_at, closes_at, is_expired,
}
use enclavekit_anchor.Program.Events.{KeyRotated}
use enclavekit_anchor.Program.Platform.{Sysvars, Bank}
use enclavekit_anchor.Program.Instructions.Outcome.{Outcome}
use enclavekit_anchor.Program.Instructions.ConfirmRotation.{ConfirmRotation, confirm}

given_rotation :
    (wallet : SmartWallet) (held : PendingRotation)
    → ok_or (get_rotation wallet.rotation) (enclave_kit no_pending_rotation) ≡ ok held
    → (wallet.rotation.pending ≡ true) × (held ≡ wallet.rotation.proposal)
unfolding get_rotation
given_rotation wallet held h = ground arith

leb_ℤ→le : (a b : ℤ) → leb_ℤ a b ≡ true → a ≤ℤ b
leb_ℤ→le a b h = ground arith

le→leb_ℤ : (a b : ℤ) → a ≤ℤ b → leb_ℤ a b ≡ true
le→leb_ℤ a b h = ground arith

not_expired :
    (held : PendingRotation) (now : ℤ) → not (is_expired held now) ≡ true → now ≤ℤ closes_at held
unfolding is_expired
not_expired held now h = ground arith

live_not_expired :
    (held : PendingRotation) (now : ℤ) → now ≤ℤ closes_at held → not (is_expired held now) ≡ true
unfolding is_expired
live_not_expired held now h = ground arith

abbrev outcome_of : ConfirmRotation → Bank → PendingRotation → Outcome KeyRotated
outcome_of self bank held = record {
  event = record { wallet_id = self.wallet.wallet_id; new_key = held.new_key; recovery = true };
  wallet = record self.wallet {
    active_key = held.new_key;
    attested = false;
    rotation = empty_rotation_slot;
  };
  bank = bank;
}

module _ (sys : Sysvars) (self : ConfirmRotation) (bank : Bank) where
  -- The wallet and the event of a confirmed proposal.
  abbrev pub confirmed : Outcome KeyRotated
  confirmed = record {
    event = record {
      wallet_id = self.wallet.wallet_id;
      new_key = self.wallet.rotation.proposal.new_key;
      recovery = true;
    };
    wallet = record self.wallet {
      active_key = self.wallet.rotation.proposal.new_key;
      attested = false;
      rotation = empty_rotation_slot;
    };
    bank = bank;
  }

  pub record IsConfirmed (o : Outcome KeyRotated) : Type 0 where
    pub now : ℤ
    pub was_pending : self.wallet.rotation.pending ≡ true
    pub clock : sys.unix_timestamp ≡ ok now
    pub opened : opens_at self.wallet.rotation.proposal ≤ℤ now
    pub not_closed : now ≤ℤ closes_at self.wallet.rotation.proposal
    pub written : o ≡ confirmed

  pub confirm-IsConfirmed : (o : Outcome KeyRotated) → confirm sys self bank ≡ ok o → IsConfirmed o
  unfolding confirm
  confirm-IsConfirmed o h =
      bind_ok (ok_or (get_rotation self.wallet.rotation) _) _ h λ held given h1.
        bind_ok sys.unix_timestamp _ h1 λ now clock h2.
          require_ok (leb_ℤ (opens_at held) now) _ _ h2 λ opened h3.
            require_ok (not (is_expired held now)) _ _ h3 λ live h4.
              let (was, same) = given_rotation self.wallet held given in
              record {
                now = now;
                was_pending = was;
                clock = clock;
                opened = rw (← same) (leb_ℤ→le (opens_at held) now opened);
                not_closed = rw (← same) (not_expired held now live);
                written = sym (ok_injective _ o h4) ∙ ap (outcome_of self bank) same;
              }

  pub IsConfirmed-confirm :
      (now : ℤ)
      → self.wallet.rotation.pending ≡ true
      → sys.unix_timestamp ≡ ok now
      → opens_at self.wallet.rotation.proposal ≤ℤ now
      → now ≤ℤ closes_at self.wallet.rotation.proposal
      → confirm sys self bank ≡ ok confirmed
  unfolding confirm get_rotation
  IsConfirmed-confirm now was clock opened live =
      let held = self.wallet.rotation.proposal in
      rw was (
        rw clock
          (rw (le→leb_ℤ (opens_at held) now opened) (rw (live_not_expired held now live) refl)))
