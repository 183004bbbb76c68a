-- ===== src/Examples/Chain.antt =====
-- A concrete platform, wallet and signatures, for running the program's methods.
pub use enclavekit_anchor.Common.{bytes_ne}
use enclavekit_anchor.Common.{ℕ, pos, Bytes, true, false, [], ◌∷◌, replicate, take}
use mathlib.Core.Option.{some}
use enclavekit_anchor.Encoding.Action.{Action}
use enclavekit_anchor.Encoding.Preimage.{to_bytes}
use enclavekit_anchor.Program.Errors.{ok}
use enclavekit_anchor.Program.Constants.{secp256r1_program_id}
use enclavekit_anchor.Program.Platform.{Platform, Sysvars, Instruction, Bank}
use enclavekit_anchor.Program.Precompile.Layout.{precompile_data}
use enclavekit_anchor.Program.State.{SmartWallet, empty_guardian_slot, empty_rotation_slot}
use enclavekit_anchor.Program.Authorization.{Authorization, expected_preimage}
use enclavekit_anchor.Program.Instructions.Outcome.{Bumps}
use enclavekit_anchor.Examples.ActionCodec.{serialize, parse, parse-serialize}
use enclavekit_anchor.Examples.Transfers.{
  transfer_if_funded, transfer_if_funded_moves, transfer_if_funded_accepts,
}

abbrev pub vault : Bytes
vault = replicate 32 9

abbrev pub payee : Bytes
payee = replicate 32 4

abbrev pub relayer : Bytes
relayer = replicate 32 5

abbrev pub owner_key : Bytes
owner_key = 2 ∷ replicate 32 7

abbrev pub guardian_key : Bytes
guardian_key = 3 ∷ replicate 32 8

abbrev pub next_key : Bytes
next_key = 2 ∷ replicate 32 6

-- The first 32 bytes stand for the hash.
abbrev pub hash : Bytes → Bytes
hash xs = take 32 xs

abbrev pub id : Bytes
id = hash owner_key

abbrev pub chain : Platform
chain = record {
  sha256 = hash;
  borsh = record { serialize = serialize; try_from_slice = parse; round_trip = parse-serialize };
  create_program_address = λ seeds. some vault;
  is_payable = λ to. true;
  transfer = transfer_if_funded;
  transfer_moves = transfer_if_funded_moves;
  transfer_accepts = λ seeds from to n b derived payable funded fits.
      transfer_if_funded_accepts seeds from to n b funded;
}

-- Every address starts with a million lamports.
abbrev pub funded : Bank
funded = λ address. 1000000

abbrev pub bumps : Bumps
bumps = record { wallet = 254; vault = 253 }

abbrev pub auth_of : ℕ → Authorization
auth_of nonce = record {
  wallet_id = id;
  nonce = nonce;
  expires_at = pos 2000000;
  max_relayer_fee = 500;
}

-- The precompile's instruction for an action that a key signed.
abbrev pub signed : Bytes → Authorization → Action → Instruction
signed key auth action = record {
  program_id = secp256r1_program_id;
  accounts = [];
  data_bytes =
      precompile_data 0 key (replicate 64 1) (to_bytes serialize (expected_preimage auth action));
}

abbrev pub sysvars : Instruction → ℕ → Sysvars
sysvars ix now = record {
  previous_instruction = ok ix;
  unix_timestamp = ok (pos now);
  rent_minimum = ok 890880;
}

-- The wallet after `nonce` actions, with no guardian.
abbrev pub wallet_at : ℕ → SmartWallet
wallet_at nonce = record {
  wallet_id = id;
  active_key = owner_key;
  nonce = nonce;
  attested = false;
  guardians = replicate 3 empty_guardian_slot;
  rotation = empty_rotation_slot;
  state_bump = 254;
  vault_bump = 253;
}
