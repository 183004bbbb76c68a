-- ===== src/Program/State/Account.antt =====
-- The bytes of the state account, as crates/enclavekit-encoding/src/state.rs documents them. The
-- writer is Anchor's derived one, a parameter, which the documented layout describes.
pub mod Slots
pub mod Fields
pub mod Sized
pub mod Filters
use enclavekit_anchor.Common.{
  ℕ, ◌<◌, Bytes, Bool, true, false, List, [], ◌∷◌, ◌++◌, length, All, IsU64, IsI64, to_le_bytes,
  i64_bits, ◌≡◌,
}
use enclavekit_anchor.Encoding.Layout.{
  discriminator_len, guardian_kind_none, guardian_kind_p256, guardian_kind_webauthn,
}
use enclavekit_anchor.Program.State.{SmartWallet, GuardianSlot, GuardianKind, RotationSlot}

unfoldable pub kind_byte : GuardianKind → ℕ
kind_byte GuardianKind.none = guardian_kind_none
kind_byte GuardianKind.p256 = guardian_kind_p256
kind_byte GuardianKind.web_authn = guardian_kind_webauthn

unfoldable pub bool_byte : Bool → ℕ
bool_byte false = 0
bool_byte true = 1

unfoldable pub slot_bytes : GuardianSlot → Bytes
unfolding kind_byte
slot_bytes slot = kind_byte slot.kind ∷ (slot.key ++ slot.rp_id_hash)

unfoldable pub slots_bytes : List GuardianSlot → Bytes
unfolding slot_bytes
slots_bytes [] = []
slots_bytes (slot ∷ slots) = slot_bytes slot ++ slots_bytes slots

-- The fields in the documented order.
unfoldable pub state_bytes : Bytes → SmartWallet → Bytes
unfolding slots_bytes bool_byte
state_bytes discriminator w =
    discriminator
    ++ (w.wallet_id
        ++ (w.active_key
            ++ (to_le_bytes 8 w.nonce
                ++ ((bool_byte w.attested ∷ [])
                    ++ (slots_bytes w.guardians
                        ++ ((bool_byte w.rotation.pending ∷ [])
                            ++ (w.rotation.proposal.new_key
                                ++ (to_le_bytes 8 (i64_bits w.rotation.proposal.proposed_at)
                                    ++ ((w.rotation.proposal.proposed_by ∷ [])
                                        ++ (w.state_bump ∷ w.vault_bump ∷ []))))))))))

-- The sizes that the Rust types fix.
pub record IsSlotSized (slot : GuardianSlot) : Type 0 where
  pub key_len : length slot.key ≡ 33
  pub rp_id_hash_len : length slot.rp_id_hash ≡ 32

pub record IsSized (w : SmartWallet) : Type 0 where
  pub wallet_id_len : length w.wallet_id ≡ 32
  pub active_key_len : length w.active_key ≡ 33
  pub nonce_u64 : IsU64 w.nonce
  pub guardians_len : length w.guardians ≡ 3
  pub slots_sized : All IsSlotSized w.guardians
  pub new_key_len : length w.rotation.proposal.new_key ≡ 33
  pub proposed_at_i64 : IsI64 w.rotation.proposal.proposed_at

-- `SmartWallet::DISCRIMINATOR` and `try_serialize`, which `#[account]` derives.
pub record AccountCodec : Type 0 where
  pub discriminator : Bytes
  pub try_serialize : SmartWallet → Bytes
  pub discriminator_size : length discriminator ≡ discriminator_len
  pub documented : (w : SmartWallet) → IsSized w → try_serialize w ≡ state_bytes discriminator w
