-- ===== src/Program/Platform.antt =====
-- What the program calls and does not contain: the sysvars, SHA-256, borsh and the System program.
pub mod Moves
use enclavekit_anchor.Common.{
  ℕ, ◌+◌, ◌-◌, ◌≤◌, ◌<◌, ◌^◌, ℤ, Bytes, Bool, true, List, bytes_eq, if◌then◌else◌, ◌≡◌,
}
use mathlib.Core.Option.{Option, some}
use enclavekit_anchor.Encoding.Borsh.{Borsh}
use enclavekit_anchor.Program.Errors.{Result, ok}

-- `Instruction` as `get_instruction_relative` returns it; of `accounts` only emptiness is read.
pub record Instruction : Type 0 where
  pub program_id : Bytes
  pub accounts : List Bytes
  pub data_bytes : Bytes

-- What the sysvars answer while one instruction runs.
pub record Sysvars : Type 0 where
  -- `get_instruction_relative(-1, instructions_sysvar)`
  pub previous_instruction : Result Instruction
  -- `Clock::get()?.unix_timestamp`
  pub unix_timestamp : Result ℤ
  -- `Rent::get()?.minimum_balance(0)`
  pub rent_minimum : Result ℕ

-- The lamports that each address holds.
abbrev pub Bank : Type 0
Bank = Bytes → ℕ

unfoldable pub debit : Bytes → ℕ → Bank → Bank
debit k n b = λ j. if bytes_eq j k then b j - n else b j

unfoldable pub credit : Bytes → ℕ → Bank → Bank
credit k n b = λ j. if bytes_eq j k then b j + n else b j

-- Taken from one address, then added to the other.
unfoldable pub move : Bytes → Bytes → ℕ → Bank → Bank
unfolding debit credit
move from to n b = credit to n (debit from n b)

pub record Platform : Type 0 where
  -- `solana_sha256_hasher::hash`
  pub sha256 : Bytes → Bytes
  pub borsh : Borsh
  -- The address that signer seeds derive under the program's id.
  pub create_program_address : List Bytes → Option Bytes
  -- Whether the System program can credit an address.
  pub is_payable : Bytes → Bool
  -- `system_program::transfer` with the signer seeds of `CpiContext::new_with_signer`
  pub transfer : List Bytes → Bytes → Bytes → ℕ → Bank → Result Bank
  -- A transfer that succeeds moves the lamports, and the sender had them.
  pub transfer_moves :
      (seeds : List Bytes) (from to : Bytes) (n : ℕ) (b b' : Bank)
      → transfer seeds from to n b ≡ ok b'
      → (n ≤ b from) × (b' ≡ move from to n b)
  -- With the sender's seeds, enough lamports and a payable address it succeeds.
  pub transfer_accepts :
      (seeds : List Bytes) (from to : Bytes) (n : ℕ) (b : Bank)
      → create_program_address seeds ≡ some from
      → is_payable to ≡ true
      → n ≤ b from
      → b to + n < 2 ^ 64
      → transfer seeds from to n b ≡ ok (move from to n b)
