-- ===== src/Vectors/Instructions.antt =====
-- instructions.json: the program's instruction for every case, and the confirmation.
use enclavekit_anchor.Common.{ℕ, Bytes, Bool, List, [], ◌∷◌, ◌++◌, map, take}
use mathlib.Core.Option.{Option}
use enclavekit_anchor.Encoding.Constants.{wallet_seed, vault_seed}
use enclavekit_anchor.Encoding.Action
use enclavekit_anchor.Encoding.Action.{Action}
use enclavekit_anchor.Program.Constants.{program_id}
use enclavekit_anchor.Program.State.{Guardian}
use enclavekit_anchor.Vectors.Text.{Text, codes, Hex, ◌>>=◌, map_each}
use enclavekit_anchor.Vectors.Inputs
use enclavekit_anchor.Vectors.Client.{
  AccountMeta, ClientInstruction, InstructionArgs, ClientAccounts,
}
use enclavekit_anchor.Vectors.Tools.{Tools}
use enclavekit_anchor.Vectors.Key.{EnclaveKey, wallet_id}
use enclavekit_anchor.Vectors.Actions.{cases}

pub record AccountMetaVector : Type 0 where
  pub pubkey : Text
  pub is_signer : Bool
  pub is_writable : Bool

pub record ProgramInstructionVector : Type 0 where
  pub program_id : Text
  pub accounts : List AccountMetaVector
  pub discriminator : Hex
  pub data_bytes : Hex

pub record NamedInstructionVector : Type 0 where
  pub name : Text
  pub program_instruction : ProgramInstructionVector

pub record InstructionsVector : Type 0 where
  pub relayer : Text
  pub relayer_fee : ℕ
  pub instructions : List NamedInstructionVector

unfoldable pub program_guardian : Action.Guardian → Guardian
program_guardian Action.Guardian.none = Guardian.none
program_guardian (Action.Guardian.p256 key) = Guardian.p256 key
program_guardian (Action.Guardian.web_authn key) = Guardian.web_authn key

module _ (t : Tools) where
  -- `From<&AccountMeta>`
  unfoldable pub account_meta_vector : AccountMeta → AccountMetaVector
  account_meta_vector meta = record {
    pubkey = t.to_base58 meta.pubkey;
    is_signer = meta.is_signer;
    is_writable = meta.is_writable;
  }

  -- `From<&Instruction>`. The data are 8 bytes at least, the discriminator, so the slice is whole.
  unfoldable pub program_instruction_vector : ClientInstruction → ProgramInstructionVector
  unfolding account_meta_vector
  program_instruction_vector ix = record {
    program_id = t.to_base58 ix.program_id;
    accounts = map account_meta_vector ix.accounts;
    discriminator = record { bytes = take 8 ix.data_bytes };
    data_bytes = record { bytes = ix.data_bytes };
  }

  -- The addresses that `program_instruction` derives.
  unfoldable pub wallet_address : Bytes → Bytes
  wallet_address id = (t.find_program_address (wallet_seed ∷ id ∷ []) program_id).0

  unfoldable pub vault_address : Bytes → Bytes
  vault_address id = (t.find_program_address (vault_seed ∷ id ∷ []) program_id).0

  unfoldable pub event_authority : Bytes
  event_authority = (t.find_program_address (Inputs.event_authority_seed ∷ []) program_id).0

  -- The pair that `program_instruction` matches out of the action; a transfer of tokens is `todo!`.
  unfoldable pub args_and_accounts : Action → Bytes → Option (InstructionArgs × ClientAccounts)
  unfolding wallet_address vault_address event_authority program_guardian
  args_and_accounts (Action.transfer_sol to lamports) id = Option.some (
    InstructionArgs.transfer_sol id Inputs.nonce Inputs.expires_at Inputs.max_relayer_fee lamports
        Inputs.relayer_fee,
    ClientAccounts.transfer_sol (wallet_address id) (vault_address id) to Inputs.relayer
        t.instructions_sysvar_id t.system_program_id event_authority program_id,
  )
  args_and_accounts (Action.transfer_token mint to amount) id = Option.none
  args_and_accounts (Action.propose_rotation new_key) id = Option.some (
    InstructionArgs.propose_rotation id Inputs.nonce Inputs.expires_at Inputs.max_relayer_fee
        new_key Inputs.relayer_fee,
    ClientAccounts.propose_rotation (wallet_address id) (vault_address id) Inputs.relayer
        t.instructions_sysvar_id t.system_program_id event_authority program_id,
  )
  args_and_accounts Action.cancel_rotation id = Option.some (
    InstructionArgs.cancel_rotation id Inputs.nonce Inputs.expires_at Inputs.max_relayer_fee
        Inputs.relayer_fee,
    ClientAccounts.cancel_rotation (wallet_address id) (vault_address id) Inputs.relayer
        t.instructions_sysvar_id t.system_program_id event_authority program_id,
  )
  args_and_accounts (Action.set_guardians guardians) id = Option.some (
    InstructionArgs.set_guardians id Inputs.nonce Inputs.expires_at Inputs.max_relayer_fee
        (map program_guardian guardians) Inputs.relayer_fee,
    ClientAccounts.set_guardians (wallet_address id) (vault_address id) Inputs.relayer
        t.instructions_sysvar_id t.system_program_id event_authority program_id,
  )
  args_and_accounts (Action.sweep_vault to) id = Option.some (
    InstructionArgs.sweep_vault id Inputs.nonce Inputs.expires_at Inputs.max_relayer_fee
        Inputs.relayer_fee,
    ClientAccounts.sweep_vault (wallet_address id) (vault_address id) to Inputs.relayer
        t.instructions_sysvar_id t.system_program_id event_authority program_id,
  )
  args_and_accounts (Action.close_wallet to) id = Option.some (
    InstructionArgs.close_wallet id Inputs.nonce Inputs.expires_at Inputs.max_relayer_fee
        Inputs.relayer_fee,
    ClientAccounts.close_wallet (wallet_address id) (vault_address id) to Inputs.relayer
        t.instructions_sysvar_id t.system_program_id event_authority program_id,
  )

  unfoldable pub program_instruction : Action → Bytes → Option ClientInstruction
  unfolding args_and_accounts
  program_instruction action id = do
    (args, accounts) ← args_and_accounts action id
    Option.some (record {
      program_id = program_id;
      accounts = t.account_metas accounts;
      data_bytes = t.instruction_data args;
    })

  unfoldable pub confirm_rotation_instruction : Bytes → ClientInstruction
  unfolding wallet_address event_authority
  confirm_rotation_instruction id = record {
    program_id = program_id;
    accounts =
        t.account_metas
          (ClientAccounts.confirm_rotation (wallet_address id) event_authority program_id);
    data_bytes = t.instruction_data (InstructionArgs.confirm_rotation id);
  }

  unfoldable pub named_instruction : Bytes → Text × Action → Option NamedInstructionVector
  unfolding program_instruction program_instruction_vector
  named_instruction id (name, action) = do
    ix ← program_instruction action id
    Option.some (record { name = name; program_instruction = program_instruction_vector ix })

  unfoldable pub instructions_vector : EnclaveKey t → Option InstructionsVector
  unfolding named_instruction confirm_rotation_instruction
  instructions_vector key = do
    let id = wallet_id t key
    named ← cases t
    instructions ← map_each (named_instruction id) named
    let confirmation : NamedInstructionVector = record {
      name = codes "confirm_rotation";
      program_instruction = program_instruction_vector (confirm_rotation_instruction id);
    }
    Option.some (record {
      relayer = t.to_base58 Inputs.relayer;
      relayer_fee = Inputs.relayer_fee;
      instructions = instructions ++ (confirmation ∷ []);
    })
