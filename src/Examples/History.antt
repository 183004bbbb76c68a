-- ===== src/Examples/History.antt =====
-- A wallet's history: its owner names a guardian, the guardian proposes a key, and 72 hours later
-- anyone confirms it. And the owner's own rotation.
use enclavekit_anchor.Common.{
  ◌+ℤ◌, saturating_add, pos, bytes_eq, to_le_bytes, i64_bits, true, ◌≡◌, refl,
}
use mathlib.Core.Option.{some}
use enclavekit_anchor.Encoding.Preimage.{to_bytes}
use enclavekit_anchor.Program.Errors.{ok}
use enclavekit_anchor.Program.State.{
  p256_guardian, opens_at, get_rotation, is_expired, action_guardian_from, closes_at,
  guardian_slot_from, new_rotation, SmartWallet, PendingRotation,
}
use enclavekit_anchor.Program.Events.{GuardiansSet, KeyRotated}
use enclavekit_anchor.Program.Platform.{Sysvars, move}
use enclavekit_anchor.Program.Precompile.{load_secp256r1_payload}
use enclavekit_anchor.Program.Authorization.{
  verify_enclave_authorization, require_active_key, refund_relayer,
}
use enclavekit_anchor.Program.Instructions.Outcome.{Outcome}
use enclavekit_anchor.Program.Instructions.SetGuardians.{any_web_authn, SetGuardians, set_guardians}
use enclavekit_anchor.Program.Instructions.ProposeRotation.{
  ProposeRotation, Proposal, pending, propose,
}
use enclavekit_anchor.Program.Instructions.ConfirmRotation.{ConfirmRotation, confirm}
use enclavekit_anchor.Program.Lifecycle.Steps.{
  zeroed_wallet, guardians_replaced, proposed, Reaches, absent, kept,
}
use enclavekit_anchor.Examples.ActionCodec.{serialize}
use enclavekit_anchor.Examples.Transfers.{transfer_if_funded}
use enclavekit_anchor.Examples.Chain.{
  chain, vault, relayer, guardian_key, next_key, id, auth_of, bumps, funded,
}
use enclavekit_anchor.Examples.Authorizations.{
  at_naming, at_naming-HasRealKey, at_proposal, at_proposal-HasRealKey, one_guardian, guarded_at,
}

abbrev pub naming : SetGuardians
naming = record { wallet = zeroed_wallet; vault = vault; relayer = relayer }

abbrev pub named : Outcome GuardiansSet
named = record {
  event = record { wallet_id = id; guardians = one_guardian };
  wallet = guarded_at 1;
  bank = move vault relayer 300 funded;
}

pub naming_succeeds :
    set_guardians chain at_naming naming (auth_of 0) one_guardian 300 bumps funded ≡ ok named
unfolding set_guardians verify_enclave_authorization load_secp256r1_payload bytes_eq to_bytes
    to_le_bytes serialize i64_bits action_guardian_from require_active_key any_web_authn
    refund_relayer transfer_if_funded guardian_slot_from
naming_succeeds = refl

-- What the guardian proposed at time 2000.
abbrev pub proposal : PendingRotation
proposal = record { new_key = next_key; proposed_at = pos 2000; proposed_by = 0 }

abbrev pub awaiting : SmartWallet
awaiting = record (guarded_at 2) { rotation = record { pending = true; proposal = proposal } }

abbrev pub proposing : ProposeRotation
proposing = record { wallet = guarded_at 1; vault = vault; relayer = relayer }

abbrev pub made_outcome : Outcome Proposal
made_outcome = record {
  event = pending (record {
    wallet_id = id;
    new_key = next_key;
    guardian = guardian_key;
    opens_at = pos 261200;
  });
  wallet = awaiting;
  bank = move vault relayer 300 funded;
}

pub proposing_succeeds :
    propose chain at_proposal proposing (auth_of 1) next_key 300 funded ≡ ok made_outcome
unfolding propose bytes_eq verify_enclave_authorization load_secp256r1_payload to_bytes to_le_bytes
    serialize i64_bits p256_guardian get_rotation refund_relayer transfer_if_funded opens_at
    new_rotation saturating_add ◌+ℤ◌
proposing_succeeds = refl

abbrev pub confirming : ConfirmRotation
confirming = record { wallet = awaiting }

abbrev pub at_confirmation : Sysvars
at_confirmation = record at_proposal { unix_timestamp = ok (pos 261200) }

abbrev pub recovered : Outcome KeyRotated
recovered = record {
  event = record { wallet_id = id; new_key = next_key; recovery = true };
  wallet = record (guarded_at 2) { active_key = next_key };
  bank = funded;
}

pub confirming_succeeds : confirm at_confirmation confirming funded ≡ ok recovered
unfolding confirm get_rotation opens_at saturating_add ◌+ℤ◌ is_expired closes_at
confirming_succeeds = refl

pub guarded_reached : Reaches chain id (some (guarded_at 1))
guarded_reached = kept at_naming absent at_naming-HasRealKey (
    guardians_replaced naming (auth_of 0) one_guardian 300 bumps funded named refl refl refl
      naming_succeeds refl)

pub awaiting_reached : Reaches chain id (some awaiting)
awaiting_reached = kept at_proposal guarded_reached at_proposal-HasRealKey (
    proposed proposing (auth_of 1) next_key 300 funded made_outcome refl refl proposing_succeeds
      refl)
