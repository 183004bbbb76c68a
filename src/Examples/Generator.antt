-- ===== src/Examples/Generator.antt =====
-- Concrete functions for the parameters `AccountCodec` and `Tools`.
use enclavekit_anchor.Common.{
  ℕ, ◌+◌, ◌%◌, Bytes, List, [], ◌∷◌, ◌++◌, length, take, replicate, length-take, length-append, ◌≡◌,
  refl, arith,
}
use mathlib.Core.Option.{Option, none, some}
use enclavekit_anchor.Program.Constants.{secp256r1_program_id}
use enclavekit_anchor.Program.Precompile.Layout.{precompile_data}
use enclavekit_anchor.Program.State.Account.{AccountCodec, state_bytes}
use enclavekit_anchor.Vectors.Client.{ClientInstruction}
use enclavekit_anchor.Vectors.Tools.{Tools}
use enclavekit_anchor.Examples.ActionCodec.{length-serialize}
use enclavekit_anchor.Examples.Chain.{chain}

abbrev pub codec : AccountCodec
codec = record {
  discriminator = replicate 8 1;
  try_serialize = λ w. state_bytes (replicate 8 1) w;
  discriminator_size = refl;
  documented = λ w h. refl;
}

-- The first byte of the seed makes the key.
abbrev key_of : Bytes → Option ℕ
key_of [] = none
key_of (b ∷ bytes) = some b

abbrev point_of : ℕ → Bytes
point_of key = 2 ∷ replicate 32 (key % 256)

abbrev digest : Bytes → Bytes
digest message = take 32 (message ++ replicate 32 0)

pub length-digest : (message : Bytes) → length (digest message) ≡ 32
length-digest message =
    omega
      (arith, length-take 32 (message ++ replicate 32 0), length-append message (replicate 32 0))

-- The address of the vault's seeds is the platform's.
abbrev address_of : List Bytes → Bytes
address_of [] = replicate 32 1
address_of (seed ∷ seeds) = replicate 32 (length seed + 4)

abbrev pub tools : Tools
tools = record {
  SigningKey = ℕ;
  Signature = Bytes;
  from_slice = key_of;
  to_sec1_point = point_of;
  sign = λ key message. message;
  normalize_s = λ s. s;
  negate_s = λ s. some s;
  signature_bytes = λ s. replicate 64 1;
  to_sec1_point_array = λ key. (refl, omega arith);
  length-signature_bytes = λ s. refl;
  sha256 = digest;
  length-sha256 = length-digest;
  borsh = chain.borsh;
  length-serialize = length-serialize;
  find_program_address = λ seeds program. (address_of seeds, 254);
  to_base58 = λ address. address;
  instructions_sysvar_id = replicate 32 2;
  system_program_id = replicate 32 0;
  new_secp256r1_instruction_with_signature = λ message signature pubkey. record {
    program_id = secp256r1_program_id;
    accounts = [];
    data_bytes = precompile_data 0 pubkey signature message;
  };
  precompile_layout = λ message signature pubkey hs hp hm. refl;
  instruction_data = λ args. replicate 8 3;
  account_metas = λ accounts. [];
  account = codec;
  Message = List ClientInstruction;
  new_with_blockhash = λ instructions payer blockhash. instructions;
  message_bytes = λ message. [];
  transaction_bytes = λ signatures message. [];
  to_base64 = λ bytes. bytes;
}
