-- ===== src/Kora/Crates.antt =====
-- What the example calls and the generator does not: base58 and base64 read, the account read, a
-- payer's key pair, and the System program's transfer.
use enclavekit_anchor.Common.{ℕ, Bytes}
use mathlib.Core.Option.{Option}
use enclavekit_anchor.Program.State.{SmartWallet}
use enclavekit_anchor.Vectors.Text.{Text}
use enclavekit_anchor.Vectors.Client.{ClientInstruction}
use enclavekit_anchor.Vectors.Tools.{Tools}

pub record Crates (t : Tools) : Type 1 where
  -- `Pubkey::from_str`, `Hash::from_str`
  pub from_base58 : Text → Option Bytes
  pub from_base64 : Text → Option Bytes
  pub try_deserialize : Bytes → Option SmartWallet
  -- `SmartWallet::INIT_SPACE`
  pub init_space : ℕ
  pub Keypair : Type 0
  pub read_keypair_file : Text → Option Keypair
  pub pubkey : Keypair → Bytes
  -- `solana_system_interface::instruction::transfer`
  pub transfer : Bytes → Bytes → ℕ → ClientInstruction
  -- `VersionedTransaction::try_new` and `bincode::serialize`
  pub sign_transaction : t.Message → Keypair → Option Bytes
