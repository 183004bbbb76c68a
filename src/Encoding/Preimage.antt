-- ===== src/Encoding/Preimage.antt =====
-- crates/enclavekit-encoding/src/preimage.rs: the bytes the Secure Enclave signs.
pub mod Binding
pub mod Fields
use enclavekit_anchor.Common.{
  ℕ, ◌+◌, Bytes, ℤ, [], ◌∷◌, ◌++◌, IsArray, IsU64, IsI64, to_le_bytes, i64_bits,
}
use enclavekit_anchor.Encoding.Action.{Action, IsAction}

-- b"enclavekit:v1\0\0\0"
abbrev pub domain_tag : Bytes
domain_tag =
    b'e' ∷ b'n' ∷ b'c' ∷ b'l' ∷ b'a' ∷ b'v' ∷ b'e' ∷ b'k' ∷ b'i' ∷ b't' ∷ b':' ∷ b'v' ∷ b'1' ∷ 0 ∷ 0
    ∷ 0 ∷ []

abbrev pub header_len : ℕ
header_len = 16 + 32 + 32 + 8 + 8 + 8

abbrev pub program_id_offset : ℕ
program_id_offset = 16

abbrev pub wallet_id_offset : ℕ
wallet_id_offset = 48

abbrev pub nonce_offset : ℕ
nonce_offset = 80

abbrev pub expires_at_offset : ℕ
expires_at_offset = 88

abbrev pub max_relayer_fee_offset : ℕ
max_relayer_fee_offset = 96

abbrev pub action_offset : ℕ
action_offset = header_len

pub record Preimage : Type 0 where
  pub program_id : Bytes
  pub wallet_id : Bytes
  pub nonce : ℕ
  pub expires_at : ℤ
  pub max_relayer_fee : ℕ
  pub action : Action

-- The sizes that the Rust types fix.
pub record IsPreimage (p : Preimage) : Type 0 where
  pub program_id_array : IsArray 32 p.program_id
  pub wallet_id_array : IsArray 32 p.wallet_id
  pub nonce_u64 : IsU64 p.nonce
  pub expires_at_i64 : IsI64 p.expires_at
  pub max_relayer_fee_u64 : IsU64 p.max_relayer_fee
  pub action_fits : IsAction p.action

-- The fields in the order of the appends; `serialize` is borsh's.
unfoldable pub to_bytes : (Action → Bytes) → Preimage → Bytes
to_bytes serialize p =
    domain_tag
    ++ (p.program_id
        ++ (p.wallet_id
            ++ (to_le_bytes 8 p.nonce
                ++ (to_le_bytes 8 (i64_bits p.expires_at)
                    ++ (to_le_bytes 8 p.max_relayer_fee ++ serialize p.action)))))
