-- ===== src/Program/Lifecycle/Spec/Opening.antt =====
-- The checks of a signature against the specification: what a verified one opens, and for whom.
use enclavekit_anchor.Common.{
  ℕ, zero, suc, ℤ, ◌==◌, ==_iff, Bytes, bytes_eq_refl, true, Bool-cases, inl, inr, List, [], ◌∷◌,
  get_elem?, map, ◌≡◌, refl, sym, ap, ◌∙◌, arith,
}
use mathlib.Core.Option.{Option, none, some}
use enclavekit_anchor.Encoding.Action.{Action}
use enclavekit_anchor.Program.Errors.{ok}
use enclavekit_anchor.Program.State.{
  SmartWallet, GuardianSlot, RotationSlot, PendingRotation, is_p256, is_new, get_rotation,
  is_expired, zero_key,
}
use enclavekit_anchor.Program.Platform.{Sysvars, Platform}
use enclavekit_anchor.Program.Precompile.{SignedPayload, load_secp256r1_payload}
use enclavekit_anchor.Program.Authorization.{
  Authorization, first_wallet, verify_enclave_authorization,
}
use enclavekit_anchor.Program.Authorization.Verified.{verify-IsVerified}
use enclavekit_anchor.Program.Authorization.Accepted.{verify_in_use, verify_first_use}
use enclavekit_anchor.Program.Instructions.ProposeRotation.{require_slot_free}
use enclavekit_anchor.Program.Lifecycle.Preservation.{IsWellFormed-used}
use enclavekit_anchor.Program.Lifecycle.Steps.{zeroed_wallet, load_or_init}
use enclavekit_anchor.Program.Lifecycle.Invariant.{IsSound, IsSound-some}
use enclavekit_anchor.Program.Lifecycle.Spec.{
  Wallet, guardian_key, seen_as, account_seen_as, fresh, IsDisplaceable, nothing, own, lapsed,
  Counts, counts, Opens, opened, made,
}

-- The precompile's instruction carries the signer's key; a step that nobody signs needs none.
abbrev pub IsSigner : Sysvars → Option Bytes → Type 0
IsSigner sys none = Unit {0}
IsSigner sys (some key) =
    (payload : SignedPayload) × (load_secp256r1_payload sys.previous_instruction ≡ ok payload)
    × (payload.pubkey ≡ key)

pub get_elem?-map :
    (slots : List GuardianSlot) (i : ℕ) (slot : GuardianSlot)
    → get_elem? slots i ≡ some slot
    → get_elem? (map guardian_key slots) i ≡ some (guardian_key slot)
get_elem?-map [] i slot e = cc
get_elem?-map (s ∷ slots) zero slot e = cc
get_elem?-map (s ∷ slots) (suc i) slot e = get_elem?-map slots i slot e

pub guardian_key_named :
    (slot : GuardianSlot) (key : Bytes)
    → is_p256 slot.kind ≡ true
    → slot.key ≡ key
    → guardian_key slot ≡ some key
unfolding guardian_key
guardian_key_named slot key kind same = rw kind (ap (λ (k : Bytes). some k) same)

pub get_rotation_pending :
    (slot : RotationSlot) → slot.pending ≡ true → get_rotation slot ≡ some slot.proposal
unfolding get_rotation
get_rotation_pending slot was = rw was refl

pub free-IsDisplaceable :
    (held : Option PendingRotation) (i : ℕ) (now : ℤ)
    → require_slot_free held i now ≡ ok tt
    → IsDisplaceable i now held
unfolding require_slot_free is_expired
free-IsDisplaceable none i now h = nothing refl
free-IsDisplaceable (some r) i now h = elim (Bool-cases (r.proposed_by == i)) [
  | inl same ↦ own r refl ((==_iff _ _).0 same)
  | inr other ↦ lapsed r refl (ground arith)
]

seen_fresh :
    (auth : Authorization) (key : Bytes) (sb vb : ℕ)
    → seen_as (record (first_wallet auth key sb vb) { nonce = 1 }) ≡ fresh key
unfolding seen_as first_wallet guardian_key get_rotation
seen_fresh auth key sb vb = refl

-- The wallet with a proposal that waits.
abbrev pub waiting : SmartWallet → PendingRotation → Wallet
waiting w r = record (seen_as w) { recovery = some r }

zeroed_new : is_new zeroed_wallet ≡ true
unfolding is_new
zeroed_new = bytes_eq_refl zero_key

module _ (p : Platform) (sys : Sysvars) where
  pub verify-IsSigner :
      (w : SmartWallet) (auth : Authorization) (action : Action) (sb vb : ℕ) (signer : Bytes)
      (w' : SmartWallet)
      → verify_enclave_authorization p sys w auth action sb vb ≡ ok (signer, w')
      → IsSigner sys (some signer)
  verify-IsSigner w auth action sb vb signer w' h =
      let v = verify-IsVerified p sys w auth action sb vb signer w' h in
      (v.payload, v.loaded, sym v.by_payload)

  pub verify-Counts :
      (a : Option SmartWallet) (w : SmartWallet) (auth : Authorization) (action : Action)
      (sb vb : ℕ) (signer : Bytes) (w' : SmartWallet)
      → IsSound a
      → a ≡ some w
      → verify_enclave_authorization p sys w auth action sb vb ≡ ok (signer, w')
      → Counts (account_seen_as a) (seen_as w')
  unfolding seen_as
  verify-Counts a w auth action sb vb signer w' sound there h =
      let (_, written) =
        verify_in_use p sys w auth action sb vb (IsWellFormed-used (IsSound-some a w sound there))
          h in
      counts (seen_as w) (ap account_seen_as there) (ap seen_as written)

  pub verify-Opens :
      (wallet_id : Bytes) (a : Option SmartWallet) (w : SmartWallet) (auth : Authorization)
      (action : Action) (sb vb : ℕ) (signer : Bytes) (w' : SmartWallet)
      → IsSound a
      → auth.wallet_id ≡ wallet_id
      → w ≡ load_or_init a
      → verify_enclave_authorization p sys w auth action sb vb ≡ ok (signer, w')
      → Opens p.sha256 wallet_id (account_seen_as a) signer (seen_as w')
  verify-Opens wallet_id none w auth action sb vb signer w' sound id loaded h =
      let (hashed, _, written) =
        verify_first_use p sys w auth action sb vb (ap is_new loaded ∙ zeroed_new) h in
      made refl (hashed ∙ id) (ap seen_as written ∙ seen_fresh auth signer sb vb)
  verify-Opens wallet_id (some v) w auth action sb vb signer w' sound id loaded h = opened (
      verify-Counts (some v) w auth action sb vb signer w' sound
        (ap (λ (t : SmartWallet). some t) (sym loaded)) h)
