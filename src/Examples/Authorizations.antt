-- ===== src/Examples/Authorizations.antt =====
-- Signatures of the owner and of a guardian, as the program checks them.
use enclavekit_anchor.Common.{
  ℕ, bytes_eq, to_le_bytes, i64_bits, false, List, [], ◌∷◌, replicate, ◌≡◌, refl, subst,
}
use enclavekit_anchor.Encoding.Action
use enclavekit_anchor.Encoding.Action.{Action}
use enclavekit_anchor.Encoding.Preimage.{to_bytes}
use enclavekit_anchor.Program.Errors.{ok, ok_injective}
use enclavekit_anchor.Program.State.{
  SmartWallet, Guardian, GuardianKind, empty_guardian_slot, zero_key,
}
use enclavekit_anchor.Program.Precompile.{SignedPayload, load_secp256r1_payload}
use enclavekit_anchor.Program.Platform.{Sysvars}
use enclavekit_anchor.Program.Authorization.{expected_preimage, verify_enclave_authorization}
use enclavekit_anchor.Program.Lifecycle.Preservation.{HasRealKey}
use enclavekit_anchor.Program.Lifecycle.Steps.{zeroed_wallet}
use enclavekit_anchor.Examples.ActionCodec.{serialize}
use enclavekit_anchor.Examples.Chain.{
  chain, sysvars, signed, owner_key, guardian_key, next_key, auth_of, wallet_at, payee,
}

abbrev pub pay : Action
pay = Action.transfer_sol payee 1000

abbrev pub sweep_all : Action
sweep_all = Action.sweep_vault payee

abbrev pub close_all : Action
close_all = Action.close_wallet payee

abbrev pub one_guardian : List Guardian
one_guardian = Guardian.p256 guardian_key ∷ Guardian.none ∷ Guardian.none ∷ []

abbrev pub name_guardian : Action
name_guardian =
    Action.set_guardians
      (Action.Guardian.p256 guardian_key ∷ Action.Guardian.none ∷ Action.Guardian.none ∷ [])

abbrev pub rotate : Action
rotate = Action.propose_rotation next_key

-- The wallet with its one guardian, after `nonce` actions.
abbrev pub guarded_at : ℕ → SmartWallet
guarded_at nonce = record (wallet_at nonce) {
  guardians =
      record { kind = GuardianKind.p256; key = guardian_key; rp_id_hash = replicate 32 0 }
      ∷ empty_guardian_slot
      ∷ empty_guardian_slot
      ∷ [];
}

abbrev pub at_first_pay : Sysvars
at_first_pay = sysvars (signed owner_key (auth_of 0) pay) 1000

pub first_pay :
    verify_enclave_authorization chain at_first_pay zeroed_wallet (auth_of 0) pay 254 253
    ≡ ok (owner_key, wallet_at 1)
unfolding verify_enclave_authorization load_secp256r1_payload bytes_eq to_bytes to_le_bytes
    serialize i64_bits
first_pay = refl

abbrev pub at_next_pay : Sysvars
at_next_pay = sysvars (signed owner_key (auth_of 1) pay) 1000

pub next_pay :
    verify_enclave_authorization chain at_next_pay (wallet_at 1) (auth_of 1) pay 254 253
    ≡ ok (owner_key, wallet_at 2)
unfolding verify_enclave_authorization load_secp256r1_payload bytes_eq to_bytes to_le_bytes
    serialize i64_bits
next_pay = refl

abbrev pub at_sweep : Sysvars
at_sweep = sysvars (signed owner_key (auth_of 1) sweep_all) 1000

pub signed_sweep :
    verify_enclave_authorization chain at_sweep (wallet_at 1) (auth_of 1) sweep_all 254 253
    ≡ ok (owner_key, wallet_at 2)
unfolding verify_enclave_authorization load_secp256r1_payload bytes_eq to_bytes to_le_bytes
    serialize i64_bits
signed_sweep = refl

abbrev pub at_close : Sysvars
at_close = sysvars (signed owner_key (auth_of 1) close_all) 1000

pub signed_close :
    verify_enclave_authorization chain at_close (wallet_at 1) (auth_of 1) close_all 254 253
    ≡ ok (owner_key, wallet_at 2)
unfolding verify_enclave_authorization load_secp256r1_payload bytes_eq to_bytes to_le_bytes
    serialize i64_bits
signed_close = refl

pub at_first_pay-HasRealKey : HasRealKey at_first_pay
unfolding load_secp256r1_payload to_bytes to_le_bytes serialize i64_bits bytes_eq expected_preimage
at_first_pay-HasRealKey payload h =
    subst (λ (q : SignedPayload). bytes_eq q.pubkey zero_key ≡ false) (ok_injective _ payload h)
      refl

pub at_next_pay-HasRealKey : HasRealKey at_next_pay
unfolding load_secp256r1_payload to_bytes to_le_bytes serialize i64_bits bytes_eq expected_preimage
at_next_pay-HasRealKey payload h =
    subst (λ (q : SignedPayload). bytes_eq q.pubkey zero_key ≡ false) (ok_injective _ payload h)
      refl

abbrev pub at_naming : Sysvars
at_naming = sysvars (signed owner_key (auth_of 0) name_guardian) 1000

pub at_naming-HasRealKey : HasRealKey at_naming
unfolding load_secp256r1_payload to_bytes to_le_bytes serialize i64_bits bytes_eq expected_preimage
at_naming-HasRealKey payload h =
    subst (λ (q : SignedPayload). bytes_eq q.pubkey zero_key ≡ false) (ok_injective _ payload h)
      refl

pub signed_naming :
    verify_enclave_authorization chain at_naming zeroed_wallet (auth_of 0) name_guardian 254 253
    ≡ ok (owner_key, wallet_at 1)
unfolding verify_enclave_authorization load_secp256r1_payload bytes_eq to_bytes to_le_bytes
    serialize i64_bits
signed_naming = refl

abbrev pub at_proposal : Sysvars
at_proposal = sysvars (signed guardian_key (auth_of 1) rotate) 2000

pub at_proposal-HasRealKey : HasRealKey at_proposal
unfolding load_secp256r1_payload to_bytes to_le_bytes serialize i64_bits bytes_eq expected_preimage
at_proposal-HasRealKey payload h =
    subst (λ (q : SignedPayload). bytes_eq q.pubkey zero_key ≡ false) (ok_injective _ payload h)
      refl

abbrev pub at_rotation : Sysvars
at_rotation = sysvars (signed owner_key (auth_of 1) rotate) 2000

abbrev pub drop_rotation : Action
drop_rotation = Action.cancel_rotation

abbrev pub at_cancel : Sysvars
at_cancel = sysvars (signed owner_key (auth_of 2) drop_rotation) 1500000

abbrev pub at_stranger : Sysvars
at_stranger = sysvars (signed next_key (auth_of 1) rotate) 2000

abbrev pub at_guardian_pay : Sysvars
at_guardian_pay = sysvars (signed guardian_key (auth_of 1) pay) 1000

pub guardian_pay :
    verify_enclave_authorization chain at_guardian_pay (wallet_at 1) (auth_of 1) pay 254 253
    ≡ ok (guardian_key, wallet_at 2)
unfolding verify_enclave_authorization load_secp256r1_payload bytes_eq to_bytes to_le_bytes
    serialize i64_bits
guardian_pay = refl

abbrev pub at_first_sweep : Sysvars
at_first_sweep = sysvars (signed owner_key (auth_of 0) sweep_all) 1000
