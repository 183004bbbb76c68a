-- ===== src/Vectors/Key.antt =====
-- The test key, and key.json.
use enclavekit_anchor.Common.{ℕ, Bytes, List, [], ◌∷◌}
use mathlib.Core.Option.{Option, some}
use enclavekit_anchor.Encoding.Constants.{wallet_seed, vault_seed}
use enclavekit_anchor.Encoding.Wallet
use enclavekit_anchor.Program.Constants.{program_id}
use enclavekit_anchor.Vectors.Text.{Text, Hex, ◌>>=◌}
use enclavekit_anchor.Vectors.Inputs.{private_key, event_authority_seed}
use enclavekit_anchor.Vectors.Tools.{Tools}

pub record Pda : Type 0 where
  pub address : Text
  pub bump : ℕ

pub record KeyVector : Type 0 where
  pub private_key : Hex
  pub compressed_pubkey : Hex
  pub wallet_id : Hex
  pub program_id : Text
  pub wallet : Pda
  pub vault : Pda
  pub event_authority : Pda

module _ (t : Tools) where
  abbrev pub EnclaveKey : Type 0
  EnclaveKey = t.SigningKey

  unfoldable pub from_seed : Bytes → Option EnclaveKey
  from_seed seed = t.from_slice seed

  unfoldable pub compressed_pubkey : EnclaveKey → Bytes
  compressed_pubkey key = t.to_sec1_point key

  unfoldable pub wallet_id : EnclaveKey → Bytes
  wallet_id key = Wallet.wallet_id t.sha256 (compressed_pubkey key)

  unfoldable pub sign : EnclaveKey → Bytes → Bytes
  sign key message = t.signature_bytes (t.normalize_s (t.sign key message))

  unfoldable pub sign_high_s : EnclaveKey → Bytes → Option Bytes
  sign_high_s key message = do
    high ← t.negate_s (t.normalize_s (t.sign key message))
    some (t.signature_bytes high)

  -- `Pda::find`
  unfoldable pub find : List Bytes → Bytes → Pda
  find seeds program_id =
      let (address, bump) = t.find_program_address seeds program_id in
      record { address = t.to_base58 address; bump = bump }

  unfoldable pub key_vector : EnclaveKey → KeyVector
  key_vector key =
      let id = wallet_id key in
      record {
        private_key = record { bytes = private_key };
        compressed_pubkey = record { bytes = compressed_pubkey key };
        wallet_id = record { bytes = id };
        program_id = t.to_base58 program_id;
        wallet = find (wallet_seed ∷ id ∷ []) program_id;
        vault = find (vault_seed ∷ id ∷ []) program_id;
        event_authority = find (event_authority_seed ∷ []) program_id;
      }
