-- ===== src/Examples/Lifecycles.antt =====
-- The theorems on a wallet's life, applied to the history of History.antt.
use enclavekit_anchor.Examples.Transfers.{transfer_if_funded}
use enclavekit_anchor.Examples.ActionCodec.{serialize}
use enclavekit_anchor.Encoding.Preimage.{to_bytes}
use enclavekit_anchor.Program.Precompile.{load_secp256r1_payload}
use enclavekit_anchor.Common.{
  to_le_bytes, i64_bits, pos, ◌≤ℤ◌, ◌+ℤ◌, bytes_eq, false, ◌≡◌, ◌≢◌, refl, arith,
}
use mathlib.Core.Option.{some}
use enclavekit_anchor.Program.Errors.{ok}
use enclavekit_anchor.Program.State.WellFormed.{IsWellFormed}
use enclavekit_anchor.Program.Authorization.{refund_relayer, verify_enclave_authorization}
use enclavekit_anchor.Program.Instructions.Outcome.{Outcome}
use enclavekit_anchor.Program.Instructions.ProposeRotation.{Proposal, rotated, propose}
use enclavekit_anchor.Program.Lifecycle.Steps.{zeroed_wallet, Keeps, proposed, here, next}
use enclavekit_anchor.Program.Lifecycle.Invariant.{Reaches-IsSound}
use enclavekit_anchor.Program.Lifecycle.Nonce.{accepted_once}
use enclavekit_anchor.Program.Lifecycle.Authority.{IsKeyChange, new_active_key_authorised}
use enclavekit_anchor.Program.Lifecycle.Recovery.Origin.{IsProposedIn}
use enclavekit_anchor.Program.Lifecycle.Recovery.{recovery_needs_guardian}
use enclavekit_anchor.Program.Platform.{move}
use enclavekit_anchor.Examples.Chain.{
  chain, vault, relayer, owner_key, next_key, id, auth_of, funded, wallet_at, bytes_ne,
}
use enclavekit_anchor.Examples.Authorizations.{
  at_naming, signed_naming, name_guardian, at_proposal, at_proposal-HasRealKey, at_rotation,
  guarded_at,
}
use enclavekit_anchor.Examples.History.{
  awaiting, awaiting_reached, guarded_reached, confirming, at_confirmation, recovered,
  confirming_succeeds, proposing, made_outcome, proposing_succeeds,
}

recovery_needs_guardian_example :
    IsProposedIn awaiting_reached awaiting
    × (pos 2000 +ℤ pos 259200 ≤ℤ pos 261200)
    × (pos 261200 ≤ℤ pos 2000 +ℤ pos 259200 +ℤ pos 604800)
    × (recovered.wallet.active_key ≡ next_key)
recovery_needs_guardian_example =
    recovery_needs_guardian chain id at_confirmation confirming funded recovered (pos 261200)
      awaiting_reached (omega arith, omega arith) refl (omega arith) confirming_succeeds

Reaches-IsSound_example : IsWellFormed awaiting
Reaches-IsSound_example = Reaches-IsSound chain id awaiting_reached

guarded-IsWellFormed : IsWellFormed (guarded_at 1)
guarded-IsWellFormed = Reaches-IsSound chain id guarded_reached

guardian_proposes : Keeps chain id at_proposal (some (guarded_at 1)) awaiting
guardian_proposes =
    proposed proposing (auth_of 1) next_key 300 funded made_outcome refl refl proposing_succeeds
      refl

accepted_once_example :
    verify_enclave_authorization chain at_naming awaiting (auth_of 0) name_guardian 254 253
    ≢ ok (owner_key, wallet_at 1)
accepted_once_example =
    accepted_once chain id at_naming at_naming zeroed_wallet (guarded_at 1) awaiting (auth_of 0)
      name_guardian name_guardian 254 253 254 253 signed_naming (omega arith) guarded-IsWellFormed
      (next at_proposal here at_proposal-HasRealKey guardian_proposes) (owner_key, wallet_at 1)

-- The owner rotates the guarded wallet at once.
abbrev rotated_outcome : Outcome Proposal
rotated_outcome = record {
  event = rotated (record { wallet_id = id; new_key = next_key; recovery = false });
  wallet = record (guarded_at 2) { active_key = next_key };
  bank = move vault relayer 300 funded;
}

owner_rotates :
    propose chain at_rotation proposing (auth_of 1) next_key 300 funded ≡ ok rotated_outcome
unfolding propose bytes_eq verify_enclave_authorization load_secp256r1_payload to_bytes to_le_bytes
    serialize i64_bits refund_relayer transfer_if_funded
owner_rotates = refl

next_is_not_owner : bytes_eq next_key owner_key ≡ false
unfolding bytes_eq
next_is_not_owner = refl

new_active_key_authorised_example :
    IsKeyChange chain at_rotation (guarded_at 1) (record (guarded_at 2) { active_key = next_key })
new_active_key_authorised_example =
    new_active_key_authorised chain id at_rotation (guarded_at 1)
      (record (guarded_at 2) { active_key = next_key }) guarded-IsWellFormed
      (proposed proposing (auth_of 1) next_key 300 funded rotated_outcome refl refl owner_rotates
        refl)
      (bytes_ne next_key owner_key next_is_not_owner)
