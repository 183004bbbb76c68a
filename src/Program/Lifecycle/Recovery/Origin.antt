-- ===== src/Program/Lifecycle/Recovery/Origin.antt =====
-- Where a pending proposal comes from.
use enclavekit_anchor.Common.{ℕ, Bytes, List, true, false, ◌≡◌, ◌≢◌, sym, ◌∙◌, ap}
use mathlib.Core.Bool.{false≢true}
use mathlib.Core.Option.{Option, some}
use enclavekit_anchor.Encoding.Action.{Action}
use enclavekit_anchor.Program.Errors.{ok}
use enclavekit_anchor.Program.State.{
  SmartWallet, GuardianSlot, PendingRotation, RotationSlot, empty_rotation_slot, new_rotation,
  p256_guardian, is_new,
}
use enclavekit_anchor.Program.Platform.{Sysvars, Platform, Bank}
use enclavekit_anchor.Encoding.Preimage.{to_bytes}
use enclavekit_anchor.Program.Precompile.{SignedPayload, load_secp256r1_payload}
use enclavekit_anchor.Program.Authorization.{Authorization, expected_preimage}
use enclavekit_anchor.Program.Authorization.Verified.{verify-IsVerified}
use enclavekit_anchor.Program.Authorization.Accepted.{verify_in_use}
use enclavekit_anchor.Program.Instructions.Outcome.{Outcome}
use enclavekit_anchor.Program.Instructions.ProposeRotation.{
  ProposeRotation, Proposal, propose, rotate_now,
}
use enclavekit_anchor.Program.Instructions.ProposeRotation.Proposed.{
  by_owner, by_guardian, propose-IsProposed,
}
use enclavekit_anchor.Program.Lifecycle.Preservation.{HasRealKey}
use enclavekit_anchor.Program.Lifecycle.Steps.{Keeps, proposed, Reaches, kept}

-- The history `s` goes on from `r`, in the same life of the account.
pub data GoesOn {p : Platform} {wallet_id : Bytes} {a : Option SmartWallet}
    (r : Reaches p wallet_id a) : (b : Option SmartWallet) → Reaches p wallet_id b → Type 0 where
  here : GoesOn r a r
  later :
      {b : Option SmartWallet} {w : SmartWallet} (sys : Sysvars) (s : Reaches p wallet_id b)
      (real : HasRealKey sys) (k : Keeps p wallet_id sys b w)
      → GoesOn r b s
      → GoesOn r (some w) (kept sys s real k)

-- A step that made this proposal: an instruction that succeeded, right after the precompile verified a
-- signature on the preimage for the new key, of a key that the wallet's slots named a P-256 guardian. The
-- wallet had these guardians and this active key.
pub record Proposing (p : Platform) (wallet_id : Bytes) (guardians : List GuardianSlot)
    (active_key : Bytes) (proposal : PendingRotation) : Type 0 where
  pub before : Option SmartWallet
  pub earlier : Reaches p wallet_id before
  pub sys : Sysvars
  pub real : HasRealKey sys
  pub self : ProposeRotation
  pub auth : Authorization
  pub relayer_fee : ℕ
  pub bank : Bank
  pub o : Outcome Proposal
  pub after : SmartWallet
  pub at : auth.wallet_id ≡ wallet_id
  pub there : before ≡ some self.wallet
  pub ran : propose p sys self auth proposal.new_key relayer_fee bank ≡ ok o
  pub left : after ≡ o.wallet
  pub payload : SignedPayload
  pub loaded : load_secp256r1_payload sys.previous_instruction ≡ ok payload
  pub signed :
      payload.message
      ≡ to_bytes p.borsh.serialize
          (expected_preimage auth (Action.propose_rotation proposal.new_key))
  pub named : p256_guardian self.wallet payload.pubkey ≡ some proposal.proposed_by
  pub clock : sys.unix_timestamp ≡ ok proposal.proposed_at
  pub same_guardians : guardians ≡ self.wallet.guardians
  pub same_key : active_key ≡ self.wallet.active_key

-- The history with this step last.
abbrev pub up_to :
    {p : Platform} {wallet_id : Bytes} {guardians : List GuardianSlot} {active_key : Bytes}
    {proposal : PendingRotation} (m : Proposing p wallet_id guardians active_key proposal)
    → Reaches p wallet_id (some m.after)
up_to {proposal = proposal} m =
    kept m.sys m.earlier m.real
      (proposed m.self m.auth proposal.new_key m.relayer_fee m.bank m.o m.at m.there m.ran m.left)

-- The proposal that `w` holds was made by a step of the history `r`, in the present life of the account,
-- and `w` still has the guardians and the active key of that time.
abbrev pub IsProposedIn :
    {p : Platform} {wallet_id : Bytes} {a : Option SmartWallet}
    → Reaches p wallet_id a
    → SmartWallet
    → Type 0
IsProposedIn {p} {wallet_id} {a} r w =
    (m : Proposing p wallet_id w.guardians w.active_key w.rotation.proposal) × GoesOn (up_to m) a r

pub not_pending : (w : SmartWallet) → w.rotation ≡ empty_rotation_slot → w.rotation.pending ≢ true
not_pending w e was = absurd (false≢true (sym (ap (λ (r : RotationSlot). r.pending) e) ∙ was))

module _ {p : Platform} {wallet_id : Bytes} {a : Option SmartWallet}
    (r : Reaches p wallet_id a) where
  -- The step that makes a proposal, by a guardian of a wallet in use.
  pub proposed-IsProposedIn :
      (sys : Sysvars) (real : HasRealKey sys) (self : ProposeRotation) (auth : Authorization)
      (new_key : Bytes) (relayer_fee : ℕ) (bank : Bank) (o : Outcome Proposal) (w' : SmartWallet)
      (at : auth.wallet_id ≡ wallet_id) (there : a ≡ some self.wallet)
      (ran : propose p sys self auth new_key relayer_fee bank ≡ ok o) (left : w' ≡ o.wallet)
      → is_new self.wallet ≡ false
      → w'.rotation.pending ≡ true
      → IsProposedIn
          (kept sys r real (proposed self auth new_key relayer_fee bank o at there ran left))
          w'
  unfolding rotate_now new_rotation p256_guardian
  proposed-IsProposedIn sys real self auth new_key relayer_fee bank o w' at there ran left used
        was =
      let t = propose-IsProposed p sys self auth new_key relayer_fee bank o ran in
      let v = verify-IsVerified p sys self.wallet auth _ _ _ t.signer t.before t.verified in
      let (_, written) = verify_in_use p sys self.wallet auth _ _ _ used t.verified in
      elim t.decided [
        | by_owner active e ↦ absurd (
            not_pending w'
              (ap (λ (x : SmartWallet). x.rotation) left
                ∙ ap (λ (r : Proposal × SmartWallet). r.1.rotation) e)
              was)
        | by_guardian other g ↦
            let gives = left ∙ ap (λ (r : Proposal × SmartWallet). r.1) g.gives in
            rw gives (
              record {
                before = a;
                earlier = r;
                sys = sys;
                real = real;
                self = self;
                auth = auth;
                relayer_fee = relayer_fee;
                bank = bank;
                o = o;
                after = w';
                at = at;
                there = there;
                ran = ran;
                left = left;
                payload = v.payload;
                loaded = v.loaded;
                signed = sym v.bound;
                named =
                    ap (p256_guardian self.wallet) (sym v.by_payload)
                    ∙ ap (λ (x : SmartWallet). p256_guardian x t.signer) (sym written)
                    ∙ g.named;
                clock = g.clock;
                same_guardians = ap (λ (x : SmartWallet). x.guardians) written;
                same_key = ap (λ (x : SmartWallet). x.active_key) written;
              },
              here,
            )
      ]
