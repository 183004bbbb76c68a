-- ===== src/Program/State.antt =====
-- programs/enclavekit/src/state.rs: the wallet's state account.
pub mod Guardians
pub mod WellFormed
pub mod Account
use enclavekit_anchor.Common.{
  ℕ, suc, ℤ, pos, Bytes, Bool, true, false, ◌&&◌, List, [], ◌∷◌, replicate, bytes_eq,
  saturating_add, ltb_ℤ, if◌then◌else◌,
}
use mathlib.Core.Option
use mathlib.Core.Option.{Option}
use enclavekit_anchor.Encoding.Constants.{compressed_pubkey_len}
use enclavekit_anchor.Encoding.Action
use enclavekit_anchor.Program.Constants.{rotation_delay, rotation_window}

-- `[0u8; COMPRESSED_PUBKEY_LEN]`
abbrev pub zero_key : Bytes
zero_key = replicate compressed_pubkey_len 0

pub data GuardianKind : Type 0 where
  none p256 web_authn : GuardianKind

-- `slot.kind == GuardianKind::P256`
abbrev pub is_p256 : GuardianKind → Bool
is_p256 GuardianKind.none = false
is_p256 GuardianKind.p256 = true
is_p256 GuardianKind.web_authn = false

pub record GuardianSlot : Type 0 where
  pub kind : GuardianKind
  pub key : Bytes
  pub rp_id_hash : Bytes

-- `GuardianSlot::EMPTY`
abbrev pub empty_guardian_slot : GuardianSlot
empty_guardian_slot = record {
  kind = GuardianKind.none;
  key = zero_key;
  rp_id_hash = replicate 32 0;
}

-- A guardian as `set_guardians` takes it.
pub data Guardian : Type 0 where
  none : Guardian
  p256 : Bytes → Guardian
  web_authn : Bytes → Guardian

-- `impl From<Guardian> for GuardianSlot`
unfoldable pub guardian_slot_from : Guardian → GuardianSlot
guardian_slot_from Guardian.none = empty_guardian_slot
guardian_slot_from (Guardian.p256 k) = record empty_guardian_slot {
  kind = GuardianKind.p256;
  key = k;
}
guardian_slot_from (Guardian.web_authn k) = record empty_guardian_slot {
  kind = GuardianKind.web_authn;
  key = k;
}

-- `impl From<Guardian> for enclavekit_encoding::action::Guardian`
unfoldable pub action_guardian_from : Guardian → Action.Guardian
action_guardian_from Guardian.none = Action.Guardian.none
action_guardian_from (Guardian.p256 k) = Action.Guardian.p256 k
action_guardian_from (Guardian.web_authn k) = Action.Guardian.web_authn k

pub record PendingRotation : Type 0 where
  pub new_key : Bytes
  pub proposed_at : ℤ
  pub proposed_by : ℕ

unfoldable pub opens_at : PendingRotation → ℤ
opens_at p = saturating_add p.proposed_at rotation_delay

unfoldable pub closes_at : PendingRotation → ℤ
closes_at p = saturating_add (opens_at p) rotation_window

unfoldable pub is_expired : PendingRotation → ℤ → Bool
is_expired p now = ltb_ℤ (closes_at p) now

pub record RotationSlot : Type 0 where
  pub pending : Bool
  pub proposal : PendingRotation

-- `RotationSlot::EMPTY`
abbrev pub empty_rotation_slot : RotationSlot
empty_rotation_slot = record {
  pending = false;
  proposal = record { new_key = zero_key; proposed_at = pos 0; proposed_by = 0 };
}

-- `RotationSlot::new`
unfoldable pub new_rotation : PendingRotation → RotationSlot
new_rotation p = record { pending = true; proposal = p }

-- `RotationSlot::get`
unfoldable pub get_rotation : RotationSlot → Option PendingRotation
get_rotation slot = if slot.pending then Option.some slot.proposal else Option.none

-- `RotationSlot::take`: what it held, and the emptied slot.
unfoldable pub take_rotation : RotationSlot → Option PendingRotation × RotationSlot
take_rotation slot =
    (if slot.pending then Option.some slot.proposal else Option.none, empty_rotation_slot)

-- `[GuardianSlot; MAX_GUARDIANS]` is a list; its length is part of the invariant.
pub record SmartWallet : Type 0 where
  pub wallet_id : Bytes
  pub active_key : Bytes
  pub nonce : ℕ
  pub attested : Bool
  pub guardians : List GuardianSlot
  pub rotation : RotationSlot
  pub state_bump : ℕ
  pub vault_bump : ℕ

unfoldable pub is_new : SmartWallet → Bool
is_new w = bytes_eq w.active_key zero_key

-- `Iterator::position` over the slots, with the test of `p256_guardian`.
unfoldable pub position_from : Bytes → ℕ → List GuardianSlot → Option ℕ
position_from key i [] = Option.none
position_from key i (slot ∷ slots) =
    if is_p256 slot.kind && bytes_eq slot.key key
    then Option.some i
    else position_from key (suc i) slots

unfoldable pub p256_guardian : SmartWallet → Bytes → Option ℕ
unfolding position_from
p256_guardian w key = position_from key 0 w.guardians
