-- ===== src/Kora/TransferRequest.antt =====
-- programs/enclavekit/tests/common/requests.rs, as the example uses it: `TransferSolRequest`, what the
-- enclave signs for it, and its two instructions. `EnclaveKey` is as the generator's.
pub mod Accepted
use enclavekit_anchor.Common.{ℕ, ℤ, Bytes, List, [], ◌∷◌}
use enclavekit_anchor.Encoding.Action
use enclavekit_anchor.Encoding.Action.{Action}
use enclavekit_anchor.Encoding.Preimage.{to_bytes}
use enclavekit_anchor.Program.Constants.{program_id}
use enclavekit_anchor.Program.Authorization.{Authorization}
use enclavekit_anchor.Vectors.Client.{ClientInstruction, InstructionArgs, ClientAccounts}
use enclavekit_anchor.Vectors.Tools.{Tools}
use enclavekit_anchor.Vectors.Key.{EnclaveKey, compressed_pubkey, sign}
use enclavekit_anchor.Vectors.Instructions.{wallet_address, vault_address, event_authority}

pub record TransferSolRequest : Type 0 where
  pub wallet_id : Bytes
  pub to : Bytes
  pub lamports : ℕ
  pub nonce : ℕ
  pub expires_at : ℤ
  pub max_relayer_fee : ℕ
  pub relayer_fee : ℕ

unfoldable pub authorization : TransferSolRequest → Authorization
authorization r = record {
  wallet_id = r.wallet_id;
  nonce = r.nonce;
  expires_at = r.expires_at;
  max_relayer_fee = r.max_relayer_fee;
}

unfoldable pub action : TransferSolRequest → Action
action r = Action.transfer_sol r.to r.lamports

module _ (t : Tools) where
  -- `EnclaveRequest::preimage`
  unfoldable pub preimage : TransferSolRequest → Bytes
  unfolding authorization action
  preimage r =
      let auth = authorization r in
      to_bytes t.borsh.serialize (record {
        program_id = program_id;
        wallet_id = auth.wallet_id;
        nonce = auth.nonce;
        expires_at = auth.expires_at;
        max_relayer_fee = auth.max_relayer_fee;
        action = action r;
      })

  -- `EnclaveKey::precompile_instruction`
  unfoldable pub precompile_instruction : EnclaveKey t → Bytes → ClientInstruction
  unfolding sign compressed_pubkey
  precompile_instruction key message =
      t.new_secp256r1_instruction_with_signature message (sign t key message)
        (compressed_pubkey t key)

  unfoldable pub instruction : TransferSolRequest → Bytes → ClientInstruction
  unfolding wallet_address vault_address event_authority
  instruction r relayer = record {
    program_id = program_id;
    accounts = t.account_metas (
        ClientAccounts.transfer_sol (wallet_address t r.wallet_id) (vault_address t r.wallet_id)
          r.to relayer t.instructions_sysvar_id t.system_program_id (event_authority t) program_id);
    data_bytes = t.instruction_data (
        InstructionArgs.transfer_sol r.wallet_id r.nonce r.expires_at r.max_relayer_fee r.lamports
          r.relayer_fee);
  }

  -- `EnclaveRequest::sign`: the precompile's instruction first, the program's second.
  unfoldable pub signed_pair : TransferSolRequest → EnclaveKey t → Bytes → List ClientInstruction
  unfolding preimage precompile_instruction instruction
  signed_pair r key relayer = precompile_instruction key (preimage r) ∷ instruction r relayer ∷ []
