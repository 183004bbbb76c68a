-- ===== src/Program/Instructions/ProposeRotation/Proposed.antt =====
-- What a successful `propose` has checked and written, for each of its two signers.
use enclavekit_anchor.Common.{
  ℕ, ◌≤◌, ℤ, min, Bytes, bytes_eq, bytes_eq→eq, false, not, not-true, Bool-cases, inl, inr, ◌≡◌,
  sym, subst, arith, if◌then◌else◌,
}
use mathlib.Core.Option.{Option, some}
use enclavekit_anchor.Encoding.Action
use enclavekit_anchor.Program.Errors.{
  Result, ok, ok_or, bind_ok, require_ok, ok_injective, enclave_kit, not_a_guardian,
}
use enclavekit_anchor.Program.State.{
  SmartWallet, PendingRotation, get_rotation, new_rotation, opens_at, p256_guardian, zero_key,
}
use enclavekit_anchor.Program.Platform.{Sysvars, Platform, Bank, move}
use enclavekit_anchor.Program.Authorization.{
  Authorization, verify_enclave_authorization, refund_relayer,
}
use enclavekit_anchor.Program.Authorization.Payments.{refund_relayer_moves}
use enclavekit_anchor.Program.Instructions.Outcome.{Outcome}
use enclavekit_anchor.Program.Instructions.ProposeRotation.{
  ProposeRotation, Proposal, pending, require_slot_free, rotate_now, propose_as_guardian, propose,
}

-- A guardian's proposal, made now.
abbrev pub made : Bytes → ℤ → ℕ → PendingRotation
made new_key now slot = record { new_key = new_key; proposed_at = now; proposed_by = slot }

-- What a guardian's branch has checked, and what it gives.
pub record IsGuardianProposal (sys : Sysvars) (before : SmartWallet) (signer new_key : Bytes)
    (r : Proposal × SmartWallet) : Type 0 where
  pub slot : ℕ
  pub now : ℤ
  pub named : p256_guardian before signer ≡ some slot
  pub clock : sys.unix_timestamp ≡ ok now
  pub free : require_slot_free (get_rotation before.rotation) slot now ≡ ok tt
  pub gives : r ≡ (
    pending (record {
      wallet_id = before.wallet_id;
      new_key = new_key;
      guardian = signer;
      opens_at = opens_at (made new_key now slot);
    }),
    record before { rotation = new_rotation (made new_key now slot) },
  )

guardian_named :
    (o : Option ℕ) (slot : ℕ) → ok_or o (enclave_kit not_a_guardian) ≡ ok slot → o ≡ some slot
guardian_named o slot h = ground arith

unit_ok : (r : Result (Unit {0})) (u : Unit {0}) → r ≡ ok u → r ≡ ok tt
unit_ok r u h = h

pub propose_as_guardian-IsGuardianProposal :
    (sys : Sysvars) (before : SmartWallet) (signer new_key : Bytes) (r : Proposal × SmartWallet)
    → propose_as_guardian sys before signer new_key ≡ ok r
    → IsGuardianProposal sys before signer new_key r
unfolding propose_as_guardian
propose_as_guardian-IsGuardianProposal sys before signer new_key r h =
    bind_ok (ok_or (p256_guardian before signer) _) _ h λ slot found h1.
      bind_ok sys.unix_timestamp _ h1 λ now clock h2.
        bind_ok (require_slot_free (get_rotation before.rotation) slot now) _ h2 λ u free h3.
          record {
            slot = slot;
            now = now;
            named = guardian_named (p256_guardian before signer) slot found;
            clock = clock;
            free = unit_ok _ u free;
            gives = sym (ok_injective _ r h3);
          }

-- What was decided, by the key that signed.
pub data Decided (sys : Sysvars) (before : SmartWallet) (signer new_key : Bytes)
    (r : Proposal × SmartWallet) : Type 0 where
  by_owner :
      signer ≡ before.active_key
      → r ≡ rotate_now before new_key
      → Decided sys before signer new_key r
  by_guardian :
      bytes_eq signer before.active_key ≡ false
      → IsGuardianProposal sys before signer new_key r
      → Decided sys before signer new_key r

decide :
    (sys : Sysvars) (before : SmartWallet) (signer new_key : Bytes) (r : Proposal × SmartWallet)
    → (if bytes_eq signer before.active_key
        then ok (rotate_now before new_key)
        else propose_as_guardian sys before signer new_key)
      ≡ ok r
    → Decided sys before signer new_key r
decide sys before signer new_key r h = elim (Bool-cases (bytes_eq signer before.active_key)) [
  | inl owner ↦
      by_owner (bytes_eq→eq signer before.active_key owner) (sym (ok_injective _ r (rw owner at h)))
  | inr other ↦
      by_guardian other
        (propose_as_guardian-IsGuardianProposal sys before signer new_key r (rw other at h))
]

module _ (p : Platform) (sys : Sysvars) (self : ProposeRotation) (auth : Authorization)
    (new_key : Bytes) (relayer_fee : ℕ) (bank : Bank) where
  pub record IsProposed (o : Outcome Proposal) : Type 0 where
    pub signer : Bytes
    pub before : SmartWallet
    pub new_key_set : bytes_eq new_key zero_key ≡ false
    pub verified :
        verify_enclave_authorization p sys self.wallet auth
          (Action.propose_rotation new_key)
          self.wallet.state_bump
          self.wallet.vault_bump
        ≡ ok (signer, before)
    pub decided : Decided sys before signer new_key (o.event, o.wallet)
    pub covered : min relayer_fee auth.max_relayer_fee ≤ bank self.vault
    pub paid : o.bank ≡ move self.vault self.relayer (min relayer_fee auth.max_relayer_fee) bank

  pub propose-IsProposed :
      (o : Outcome Proposal)
      → propose p sys self auth new_key relayer_fee bank ≡ ok o
      → IsProposed o
  unfolding propose
  propose-IsProposed o h = require_ok (not (bytes_eq new_key zero_key)) _ _ h λ nonzero h0.
      bind_ok (verify_enclave_authorization _ _ _ _ _ _ _) _ h0 λ sw verified h1.
        bind_ok
          (if bytes_eq sw.0 sw.1.active_key
            then ok (rotate_now sw.1 new_key)
            else propose_as_guardian sys sw.1 sw.0 new_key)
          _ h1
          λ pw proposed h2. bind_ok (refund_relayer _ _ _ _ _ _ _) _ h2 λ pb refunded h3.
            let (amount, has, moved) =
              refund_relayer_moves p pw.1 self.vault self.relayer relayer_fee auth.max_relayer_fee
                bank pb.1 pb.0 refunded in
            subst IsProposed (ok_injective _ o h3) (record {
              signer = sw.0;
              before = sw.1;
              new_key_set = not-true (bytes_eq new_key zero_key) nonzero;
              verified = verified;
              decided = decide sys sw.1 sw.0 new_key pw proposed;
              covered = has;
              paid = moved;
            })
