-- ===== src/Vectors/Tools.antt =====
-- What the generator calls and does not contain: P-256, SHA-256, borsh, Anchor's client code and the
-- Solana SDK.
use enclavekit_anchor.Common.{ℕ, ◌<◌, ◌≤◌, Bytes, List, [], length, IsArray, ◌≡◌}
use mathlib.Core.Option.{Option}
use enclavekit_anchor.Encoding.Action.{Action, IsAction}
use enclavekit_anchor.Encoding.Borsh.{Borsh}
use enclavekit_anchor.Program.Constants.{secp256r1_program_id}
use enclavekit_anchor.Program.Precompile.Layout.{precompile_data}
use enclavekit_anchor.Program.State.Account.{AccountCodec}
use enclavekit_anchor.Vectors.Text.{Text}
use enclavekit_anchor.Vectors.Client.{
  ClientInstruction, AccountMeta, InstructionArgs, ClientAccounts,
}

pub record Tools : Type 1 where
  -- `p256`: a private scalar, its signatures, and `s` replaced by `n - s`
  pub SigningKey : Type 0
  pub Signature : Type 0
  pub from_slice : Bytes → Option SigningKey
  pub to_sec1_point : SigningKey → Bytes
  pub sign : SigningKey → Bytes → Signature
  pub normalize_s : Signature → Signature
  pub negate_s : Signature → Option Signature
  pub signature_bytes : Signature → Bytes
  -- Compressed points are 33 bytes and signatures 64.
  pub to_sec1_point_array : (key : SigningKey) → IsArray 33 (to_sec1_point key)
  pub length-signature_bytes : (s : Signature) → length (signature_bytes s) ≡ 64
  pub sha256 : Bytes → Bytes
  pub length-sha256 : (message : Bytes) → length (sha256 message) ≡ 32
  pub borsh : Borsh
  -- The largest action is its index and three guardians of 34 bytes.
  pub length-serialize : (a : Action) → IsAction a → length (borsh.serialize a) ≤ 103
  pub find_program_address : List Bytes → Bytes → Bytes × ℕ
  -- `Pubkey::to_string`, `Hash::to_string`
  pub to_base58 : Bytes → Text
  pub instructions_sysvar_id : Bytes
  pub system_program_id : Bytes
  pub new_secp256r1_instruction_with_signature : Bytes → Bytes → Bytes → ClientInstruction
  -- The layout that the `solana-secp256r1-program` crate documents, for a 16-bit message size.
  pub precompile_layout :
      (message signature pubkey : Bytes)
      → length signature ≡ 64
      → length pubkey ≡ 33
      → length message < 65536
      → new_secp256r1_instruction_with_signature message signature pubkey ≡ record {
        program_id = secp256r1_program_id;
        accounts = [];
        data_bytes = precompile_data 0 pubkey signature message;
      }
  -- Anchor's `data()` and `to_account_metas(None)`
  pub instruction_data : InstructionArgs → Bytes
  pub account_metas : ClientAccounts → List AccountMeta
  pub account : AccountCodec
  -- `Message::new_with_blockhash`, `bincode::serialize` of a message and of a transaction, base64
  pub Message : Type 0
  pub new_with_blockhash : List ClientInstruction → Bytes → Bytes → Message
  pub message_bytes : Message → Bytes
  pub transaction_bytes : List Bytes → Message → Bytes
  pub to_base64 : Bytes → Text
