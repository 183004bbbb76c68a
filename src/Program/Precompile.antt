-- ===== src/Program/Precompile.antt =====
-- programs/enclavekit/src/precompile.rs: reading the secp256r1 instruction before this one.
pub mod Layout
use enclavekit_anchor.Common.{
  ℕ, ◌+◌, ◌-◌, ◌*◌, Bytes, Bool, true, false, ◌&&◌, List, [], ◌∷◌, ◌==◌, leb, length, get_or, take,
  drop, bytes_eq,
}
use enclavekit_anchor.Program.Constants.{
  precompile_current_instruction, precompile_offsets_start, secp256r1_message_offset,
  secp256r1_program_id, secp256r1_pubkey_offset, secp256r1_signature_offset,
}
use enclavekit_anchor.Program.Errors.{
  Result, ok, ◌>>=◌, ◌>>◌, require, precompile_program_mismatch, precompile_unexpected_accounts,
  precompile_data_too_short, precompile_signature_count_mismatch, precompile_layout_mismatch,
  precompile_message_size_mismatch,
}
use enclavekit_anchor.Program.Platform.{Instruction}

pub record SignedPayload : Type 0 where
  pub pubkey : Bytes
  pub message : Bytes

pub record SignatureOffsets : Type 0 where
  pub signature_offset : ℕ
  pub signature_instruction_index : ℕ
  pub public_key_offset : ℕ
  pub public_key_instruction_index : ℕ
  pub message_data_offset : ℕ
  pub message_data_size : ℕ
  pub message_instruction_index : ℕ

-- The closure `field` of `parse`. The caller has checked that the data holds 113 bytes, so the
-- default is never read.
abbrev pub u16_field : Bytes → ℕ → ℕ
u16_field xs i =
    let at = precompile_offsets_start + 2 * i in get_or xs at 0 + 256 * get_or xs (at + 1) 0

-- `SignatureOffsets::parse`
unfoldable pub parse_offsets : Bytes → SignatureOffsets
parse_offsets xs = record {
  signature_offset = u16_field xs 0;
  signature_instruction_index = u16_field xs 1;
  public_key_offset = u16_field xs 2;
  public_key_instruction_index = u16_field xs 3;
  message_data_offset = u16_field xs 4;
  message_data_size = u16_field xs 5;
  message_instruction_index = u16_field xs 6;
}

-- The condition of the layout check.
unfoldable pub matches_layout : SignatureOffsets → Bool
matches_layout o =
    o.signature_offset == secp256r1_signature_offset
    && o.public_key_offset == secp256r1_pubkey_offset
    && o.message_data_offset == secp256r1_message_offset
    && o.signature_instruction_index == precompile_current_instruction
    && o.public_key_instruction_index == precompile_current_instruction
    && o.message_instruction_index == precompile_current_instruction

abbrev pub is_empty {ℓ} : {A : Type ℓ} → List A → Bool
is_empty [] = true
is_empty (x ∷ xs) = false

-- `data[a..b]`
abbrev pub slice : ℕ → ℕ → Bytes → Bytes
slice a b xs = take (b - a) (drop a xs)

unfoldable pub load_secp256r1_payload : Result Instruction → Result SignedPayload
unfolding parse_offsets matches_layout
load_secp256r1_payload previous_instruction = do
  ix ← previous_instruction
  require (bytes_eq ix.program_id secp256r1_program_id) precompile_program_mismatch
  require (is_empty ix.accounts) precompile_unexpected_accounts
  let xs = ix.data_bytes
  require (leb secp256r1_message_offset (length xs)) precompile_data_too_short
  require (get_or xs 0 0 == 1) precompile_signature_count_mismatch
  let offsets = parse_offsets xs
  require (matches_layout offsets) precompile_layout_mismatch
  require (secp256r1_message_offset + offsets.message_data_size == length xs)
      precompile_message_size_mismatch
  ok (record {
    pubkey = slice secp256r1_pubkey_offset secp256r1_signature_offset xs;
    message = drop secp256r1_message_offset xs;
  })
