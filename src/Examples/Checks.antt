-- ===== src/Examples/Checks.antt =====
-- The theorems on authorizations, their encoding and the rotation's checks, applied.
use enclavekit_anchor.Common.{
  pos, ◌≤ℤ◌, ◌+ℤ◌, Bytes, bytes_eq, true, false, [], ◌∷◌, replicate, ◌≡◌, ◌↔◌, refl, arith,
}
use mathlib.Core.Option.{Option}
use enclavekit_anchor.Encoding.Preimage.{IsPreimage}
use enclavekit_anchor.Encoding.Preimage.Binding.{to_bytes_injective}
use enclavekit_anchor.Encoding.Action.{IsAction}
use enclavekit_anchor.Program.Constants.{secp256r1_program_id}
use enclavekit_anchor.Program.Errors.{ok}
use enclavekit_anchor.Program.State.{p256_guardian, is_new}
use enclavekit_anchor.Program.Platform.{Instruction}
use enclavekit_anchor.Program.Precompile.{load_secp256r1_payload}
use enclavekit_anchor.Program.Precompile.Layout.{
  precompile_data, IsPrecompileData, load_secp256r1_payload_exact,
}
use enclavekit_anchor.Program.Authorization.{expected_preimage, first_wallet}
use enclavekit_anchor.Program.Authorization.Accepted.{
  IsAuthorization, verify_binds, verify_first_use,
}
use enclavekit_anchor.Program.Instructions.ConfirmRotation.Timelock.{confirm_timelock}
use enclavekit_anchor.Program.Lifecycle.Steps.{zeroed_wallet}
use enclavekit_anchor.Examples.Chain.{
  chain, id, owner_key, guardian_key, next_key, auth_of, wallet_at, funded,
}
use enclavekit_anchor.Examples.Authorizations.{at_first_pay, first_pay, pay, guarded_at}
use enclavekit_anchor.Examples.History.{confirming, at_confirmation, recovered, confirming_succeeds}

auth_of_0-IsAuthorization : IsAuthorization (auth_of 0)
auth_of_0-IsAuthorization = record {
  wallet_id_array = omega arith;
  nonce_u64 = omega arith;
  expires_at_i64 = omega arith;
  max_relayer_fee_u64 = omega arith;
}

pay-IsAction : IsAction pay
pay-IsAction = omega arith

verify_binds_example : (auth_of 0 ≡ auth_of 0) × (pay ≡ pay)
verify_binds_example =
    verify_binds chain at_first_pay at_first_pay zeroed_wallet zeroed_wallet (auth_of 0) (auth_of 0)
      pay pay 254 253 254 253 auth_of_0-IsAuthorization auth_of_0-IsAuthorization pay-IsAction
      pay-IsAction refl first_pay first_pay

zeroed_is_new : is_new zeroed_wallet ≡ true
unfolding is_new bytes_eq
zeroed_is_new = refl

wallet_is_used : is_new (wallet_at 1) ≡ false
unfolding is_new bytes_eq
wallet_is_used = refl

guardian_found : p256_guardian (guarded_at 1) guardian_key ≡ Option.some 0
unfolding p256_guardian bytes_eq
guardian_found = refl

none_found : p256_guardian (guarded_at 1) next_key ≡ Option.none
unfolding p256_guardian bytes_eq
none_found = refl

verify_first_use_example :
    (chain.sha256 owner_key ≡ id)
    × ((auth_of 0).nonce ≡ 0)
    × (wallet_at 1 ≡ record (first_wallet (auth_of 0) owner_key 254 253) { nonce = 1 })
verify_first_use_example =
    verify_first_use chain at_first_pay zeroed_wallet (auth_of 0) pay 254 253 zeroed_is_new
      first_pay

confirm_timelock_example :
    (pos 2000 +ℤ pos 259200 ≤ℤ pos 261200) × (pos 261200 ≤ℤ pos 2000 +ℤ pos 259200 +ℤ pos 604800)
confirm_timelock_example =
    confirm_timelock at_confirmation confirming funded recovered (pos 261200)
      (omega arith, omega arith) refl (omega arith) confirming_succeeds

abbrev short_message : Bytes
short_message = 1 ∷ 2 ∷ 3 ∷ []

abbrev short_instruction : Instruction
short_instruction = record {
  program_id = secp256r1_program_id;
  accounts = [];
  data_bytes = precompile_data 0 owner_key (replicate 64 1) short_message;
}

load_secp256r1_payload_exact_example :
    (load_secp256r1_payload (ok short_instruction)
      ≡ ok (record { pubkey = owner_key; message = short_message }))
    ↔ ((secp256r1_program_id ≡ secp256r1_program_id)
        × (short_instruction.accounts ≡ [])
        × IsPrecompileData short_instruction.data_bytes
            (record { pubkey = owner_key; message = short_message }))
load_secp256r1_payload_exact_example =
    load_secp256r1_payload_exact short_instruction
      (record { pubkey = owner_key; message = short_message }) (omega arith)

pub signed_pay-IsPreimage : IsPreimage (expected_preimage (auth_of 0) pay)
unfolding expected_preimage
signed_pay-IsPreimage = record {
  program_id_array = omega arith;
  wallet_id_array = omega arith;
  nonce_u64 = omega arith;
  expires_at_i64 = omega arith;
  max_relayer_fee_u64 = omega arith;
  action_fits = omega arith;
}

to_bytes_injective_example : expected_preimage (auth_of 0) pay ≡ expected_preimage (auth_of 0) pay
to_bytes_injective_example =
    to_bytes_injective chain.borsh (expected_preimage (auth_of 0) pay)
      (expected_preimage (auth_of 0) pay) signed_pay-IsPreimage signed_pay-IsPreimage refl
