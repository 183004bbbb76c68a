-- ===== src/Vectors/States.antt =====
-- state.json: two wallets, as stored fields and as the account's data, with the offset of each field.
pub mod Matched
use enclavekit_anchor.Common.{ℕ, ℤ, Bytes, Bool, true, false, List, [], ◌∷◌, map, replicate}
use mathlib.Core.Option.{Option, some}
use enclavekit_anchor.Encoding.Constants.{wallet_seed, vault_seed, max_guardians}
use enclavekit_anchor.Encoding.Layout
use enclavekit_anchor.Program.Constants.{program_id}
use enclavekit_anchor.Program.State.{
  SmartWallet, GuardianSlot, GuardianKind, Guardian, PendingRotation, empty_guardian_slot,
  empty_rotation_slot, guardian_slot_from, new_rotation,
}
use enclavekit_anchor.Vectors.Text.{Text, codes, Hex, ◌>>=◌}
use enclavekit_anchor.Vectors.Inputs
use enclavekit_anchor.Vectors.Tools.{Tools}
use enclavekit_anchor.Vectors.Key.{EnclaveKey, from_seed, compressed_pubkey, wallet_id}

pub record GuardianSlotOffsets : Type 0 where
  pub kind : ℕ
  pub key : ℕ
  pub rp_id_hash : ℕ

pub record RotationOffsets : Type 0 where
  pub pending : ℕ
  pub new_key : ℕ
  pub proposed_at : ℕ
  pub proposed_by : ℕ

pub record StateOffsets : Type 0 where
  pub wallet_id : ℕ
  pub active_key : ℕ
  pub nonce : ℕ
  pub attested : ℕ
  pub guardians : List GuardianSlotOffsets
  pub rotation : RotationOffsets
  pub state_bump : ℕ
  pub vault_bump : ℕ

pub record GuardianSlotFields : Type 0 where
  pub kind : Text
  pub key : Hex
  pub rp_id_hash : Hex

pub record RotationFields : Type 0 where
  pub pending : Bool
  pub new_key : Hex
  pub proposed_at : ℤ
  pub proposed_by : ℕ

pub record StateFields : Type 0 where
  pub wallet_id : Hex
  pub active_key : Hex
  pub nonce : ℕ
  pub attested : Bool
  pub guardians : List GuardianSlotFields
  pub rotation : RotationFields
  pub state_bump : ℕ
  pub vault_bump : ℕ

pub record NamedStateVector : Type 0 where
  pub name : Text
  pub fields : StateFields
  pub data_bytes : Hex

pub record StateVector : Type 0 where
  pub discriminator : Hex
  pub size : ℕ
  pub offsets : StateOffsets
  pub rp_id : Text
  pub states : List NamedStateVector

unfoldable pub kind_text : GuardianKind → Text
kind_text GuardianKind.none = codes "None"
kind_text GuardianKind.p256 = codes "P256"
kind_text GuardianKind.web_authn = codes "WebAuthn"

-- The closure that the conversion maps over the slots.
unfoldable pub slot_fields_from : GuardianSlot → GuardianSlotFields
unfolding kind_text
slot_fields_from slot = record {
  kind = kind_text slot.kind;
  key = record { bytes = slot.key };
  rp_id_hash = record { bytes = slot.rp_id_hash };
}

-- `From<&SmartWallet> for StateFields`
unfoldable pub state_fields_from : SmartWallet → StateFields
unfolding slot_fields_from
state_fields_from w = record {
  wallet_id = record { bytes = w.wallet_id };
  active_key = record { bytes = w.active_key };
  nonce = w.nonce;
  attested = w.attested;
  guardians = map slot_fields_from w.guardians;
  rotation = record {
    pending = w.rotation.pending;
    new_key = record { bytes = w.rotation.proposal.new_key };
    proposed_at = w.rotation.proposal.proposed_at;
    proposed_by = w.rotation.proposal.proposed_by;
  };
  state_bump = w.state_bump;
  vault_bump = w.vault_bump;
}

-- The closure that `state_vector` maps over `0..MAX_GUARDIANS`.
unfoldable pub slot_offsets : ℕ → GuardianSlotOffsets
unfolding Layout.guardian_kind_offset Layout.guardian_key_offset Layout.guardian_rp_id_hash_offset
slot_offsets i = record {
  kind = Layout.guardian_kind_offset i;
  key = Layout.guardian_key_offset i;
  rp_id_hash = Layout.guardian_rp_id_hash_offset i;
}

unfoldable pub state_offsets : StateOffsets
unfolding slot_offsets
state_offsets = record {
  wallet_id = Layout.wallet_id_offset;
  active_key = Layout.active_key_offset;
  nonce = Layout.nonce_offset;
  attested = Layout.attested_offset;
  guardians = map slot_offsets (0 ∷ 1 ∷ 2 ∷ []);
  rotation = record {
    pending = Layout.rotation_offset;
    new_key = Layout.rotation_new_key_offset;
    proposed_at = Layout.rotation_proposed_at_offset;
    proposed_by = Layout.rotation_proposed_by_offset;
  };
  state_bump = Layout.state_bump_offset;
  vault_bump = Layout.vault_bump_offset;
}

module _ (t : Tools) where
  unfoldable pub named_state : Text → SmartWallet → NamedStateVector
  unfolding state_fields_from
  named_state name w = record {
    name = name;
    fields = state_fields_from w;
    data_bytes = record { bytes = t.account.try_serialize w };
  }

  -- The wallet as its first action leaves it.
  unfoldable pub created : EnclaveKey t → SmartWallet
  unfolding wallet_id compressed_pubkey
  created key = record {
    wallet_id = wallet_id t key;
    active_key = compressed_pubkey t key;
    nonce = 1;
    attested = false;
    guardians = replicate max_guardians empty_guardian_slot;
    rotation = empty_rotation_slot;
    state_bump = (t.find_program_address (wallet_seed ∷ wallet_id t key ∷ []) program_id).1;
    vault_bump = (t.find_program_address (vault_seed ∷ wallet_id t key ∷ []) program_id).1;
  }

  -- The wallet with a device, a passkey and the device's proposal.
  unfoldable pub recovering :
      EnclaveKey t → EnclaveKey t → EnclaveKey t → EnclaveKey t → SmartWallet
  unfolding created guardian_slot_from new_rotation
  recovering key device passkey new_key = record (created key) {
    nonce = Inputs.nonce;
    attested = true;
    guardians =
        empty_guardian_slot
        ∷ guardian_slot_from (Guardian.p256 (compressed_pubkey t device))
        ∷ record {
          kind = GuardianKind.web_authn;
          key = compressed_pubkey t passkey;
          rp_id_hash = t.sha256 Inputs.rp_id;
        }
        ∷ [];
    rotation = new_rotation (record {
      new_key = compressed_pubkey t new_key;
      proposed_at = Inputs.proposed_at;
      proposed_by = 1;
    });
  }

  unfoldable pub state_vector : EnclaveKey t → Option StateVector
  unfolding recovering state_offsets named_state from_seed
  state_vector key = do
    device ← from_seed t Inputs.guardian_seed
    passkey ← from_seed t Inputs.passkey_seed
    new_key ← from_seed t Inputs.new_key_seed
    some (record {
      discriminator = record { bytes = t.account.discriminator };
      size = Layout.state_len;
      offsets = state_offsets;
      rp_id = Inputs.rp_id;
      states =
          named_state (codes "created") (created key)
          ∷ named_state (codes "recovering") (recovering key device passkey new_key)
          ∷ [];
    })
