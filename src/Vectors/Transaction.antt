-- ===== src/Vectors/Transaction.antt =====
-- transaction.json: the transfer's two instructions in the unsigned transaction for the relayer.
pub mod Delivered
use enclavekit_anchor.Common.{ℕ, Bytes, List, [], ◌∷◌, replicate}
use mathlib.Core.Option.{Option, some}
use enclavekit_anchor.Encoding.Action.{Action}
use enclavekit_anchor.Vectors.Text.{Text, Hex, ◌>>=◌}
use enclavekit_anchor.Vectors.Inputs
use enclavekit_anchor.Vectors.Client.{ClientInstruction}
use enclavekit_anchor.Vectors.Tools.{Tools}
use enclavekit_anchor.Vectors.Key.{EnclaveKey, compressed_pubkey, wallet_id, sign}
use enclavekit_anchor.Vectors.Actions.{signed_bytes}
use enclavekit_anchor.Vectors.Instructions.{
  ProgramInstructionVector, program_instruction_vector, program_instruction,
}

pub record TransactionVector : Type 0 where
  pub relayer : Text
  pub relayer_fee : ℕ
  pub blockhash : Text
  pub program_instruction : ProgramInstructionVector
  pub message : Hex
  pub transaction : Text

-- `Signature::default()`, the one empty slot.
abbrev pub empty_signature : Bytes
empty_signature = replicate 64 0

module _ (t : Tools) where
  -- The precompile's instruction of the transfer.
  unfoldable pub precompile_instruction : EnclaveKey t → Action → ClientInstruction
  unfolding signed_bytes sign compressed_pubkey
  precompile_instruction key action =
      t.new_secp256r1_instruction_with_signature (signed_bytes t key action)
        (sign t key (signed_bytes t key action)) (compressed_pubkey t key)

  unfoldable pub transaction_vector : EnclaveKey t → Option TransactionVector
  unfolding precompile_instruction program_instruction
  transaction_vector key = do
    let action = Action.transfer_sol Inputs.to Inputs.lamports
    program ← program_instruction t action (wallet_id t key)
    let message =
        t.new_with_blockhash (precompile_instruction key action ∷ program ∷ []) Inputs.relayer
          Inputs.blockhash
    some (record {
      relayer = t.to_base58 Inputs.relayer;
      relayer_fee = Inputs.relayer_fee;
      blockhash = t.to_base58 Inputs.blockhash;
      program_instruction = program_instruction_vector t program;
      message = record { bytes = t.message_bytes message };
      transaction = t.to_base64 (t.transaction_bytes (empty_signature ∷ []) message);
    })
