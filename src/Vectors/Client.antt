-- ===== src/Vectors/Client.antt =====
-- An instruction as a client builds it. `InstructionArgs` and `ClientAccounts` are the structs that
-- Anchor generates for clients, with the arguments of the handlers of lib.rs and the accounts of
-- instructions/*.rs.
use enclavekit_anchor.Common.{ℕ, ℤ, Bytes, Bool, List, map}
use enclavekit_anchor.Program.State.{Guardian}
use enclavekit_anchor.Program.Platform.{Instruction}

pub record AccountMeta : Type 0 where
  pub pubkey : Bytes
  pub is_signer : Bool
  pub is_writable : Bool

pub record ClientInstruction : Type 0 where
  pub program_id : Bytes
  pub accounts : List AccountMeta
  pub data_bytes : Bytes

-- The instruction as the Instructions sysvar shows it to the program.
unfoldable pub seen : ClientInstruction → Instruction
seen ix = record {
  program_id = ix.program_id;
  accounts = map (λ (m : AccountMeta). m.pubkey) ix.accounts;
  data_bytes = ix.data_bytes;
}

-- `enclavekit::instruction`
pub data InstructionArgs : Type 0 where
  transfer_sol :
      (wallet_id : Bytes) (nonce : ℕ) (expires_at : ℤ) (max_relayer_fee lamports relayer_fee : ℕ)
      → InstructionArgs
  propose_rotation :
      (wallet_id : Bytes) (nonce : ℕ) (expires_at : ℤ) (max_relayer_fee : ℕ) (new_key : Bytes)
      (relayer_fee : ℕ)
      → InstructionArgs
  cancel_rotation :
      (wallet_id : Bytes) (nonce : ℕ) (expires_at : ℤ) (max_relayer_fee relayer_fee : ℕ)
      → InstructionArgs
  set_guardians :
      (wallet_id : Bytes) (nonce : ℕ) (expires_at : ℤ) (max_relayer_fee : ℕ)
      (guardians : List Guardian) (relayer_fee : ℕ)
      → InstructionArgs
  sweep_vault :
      (wallet_id : Bytes) (nonce : ℕ) (expires_at : ℤ) (max_relayer_fee relayer_fee : ℕ)
      → InstructionArgs
  close_wallet :
      (wallet_id : Bytes) (nonce : ℕ) (expires_at : ℤ) (max_relayer_fee relayer_fee : ℕ)
      → InstructionArgs
  confirm_rotation : (wallet_id : Bytes) → InstructionArgs

-- `enclavekit::accounts`
pub data ClientAccounts : Type 0 where
  transfer_sol :
      (wallet vault to relayer instructions_sysvar system_program event_authority program : Bytes)
      → ClientAccounts
  propose_rotation :
      (wallet vault relayer instructions_sysvar system_program event_authority program : Bytes)
      → ClientAccounts
  cancel_rotation :
      (wallet vault relayer instructions_sysvar system_program event_authority program : Bytes)
      → ClientAccounts
  set_guardians :
      (wallet vault relayer instructions_sysvar system_program event_authority program : Bytes)
      → ClientAccounts
  sweep_vault :
      (wallet vault to relayer instructions_sysvar system_program event_authority program : Bytes)
      → ClientAccounts
  close_wallet :
      (wallet vault to relayer instructions_sysvar system_program event_authority program : Bytes)
      → ClientAccounts
  confirm_rotation : (wallet event_authority program : Bytes) → ClientAccounts
