-- ===== src/Examples/Rotations.antt =====
-- The theorems on the active key, rotations, new guardians and what ends a proposal, applied.
use enclavekit_anchor.Examples.Transfers.{transfer_if_funded}
use enclavekit_anchor.Program.Precompile.{load_secp256r1_payload}
use enclavekit_anchor.Common.{
  ℕ, Bytes, get_elem?, ◌↔◌, false, ◌+ℤ◌, to_le_bytes, saturating_add, pos, bytes_eq, i64_bits, ◌≡◌,
  ◌≢◌, refl, arith,
}
use mathlib.Core.Option.{Option}
use enclavekit_anchor.Encoding.Preimage.{to_bytes}
use enclavekit_anchor.Program.Errors.{ok, err, enclave_kit, key_mismatch, no_pending_rotation}
use enclavekit_anchor.Program.Instructions.SetGuardians.Named.{IsFirstListed, set_guardians_names}
use enclavekit_anchor.Program.State.{
  Guardian, take_rotation, opens_at, closes_at, p256_guardian, empty_rotation_slot,
}
use enclavekit_anchor.Program.Events.{KeyRotated, RotationCancelled}
use enclavekit_anchor.Program.Platform.{move}
use enclavekit_anchor.Program.Authorization.{
  require_active_key, refund_relayer, verify_enclave_authorization,
}
use enclavekit_anchor.Program.Instructions.Ended.{cancelled, ended_not_confirmed}
use enclavekit_anchor.Program.Instructions.Outcome.{Outcome}
use enclavekit_anchor.Program.Instructions.ActiveKey.{transfers, only_active_key}
use enclavekit_anchor.Program.Instructions.TransferSol.{TransferSol, transfer}
use enclavekit_anchor.Program.Instructions.CancelRotation.{CancelRotation, cancel}
use enclavekit_anchor.Program.Instructions.ConfirmRotation.{confirm}
use enclavekit_anchor.Program.Lifecycle.Recovers.{proposal_confirmable}
use enclavekit_anchor.Examples.ActionCodec.{serialize}
use enclavekit_anchor.Examples.Chain.{
  chain, vault, payee, relayer, owner_key, guardian_key, next_key, id, auth_of, bumps, funded,
  wallet_at, bytes_ne,
}
use enclavekit_anchor.Examples.Authorizations.{
  at_naming, one_guardian, at_proposal, at_guardian_pay, guardian_pay, at_cancel, guarded_at,
}
use enclavekit_anchor.Examples.History.{
  naming, named, naming_succeeds, proposing, made_outcome, proposing_succeeds, awaiting,
  at_confirmation,
}

guardian_is_not_owner : guardian_key ≢ owner_key
unfolding bytes_eq
guardian_is_not_owner = bytes_ne guardian_key owner_key refl

proposal_confirmable_example :
    (c : Outcome KeyRotated) × (confirm at_confirmation (record { wallet = awaiting }) funded
      ≡ ok c)
    × (c.wallet.active_key ≡ next_key)
    × (c.wallet.rotation ≡ empty_rotation_slot)
unfolding closes_at saturating_add ◌+ℤ◌ opens_at
proposal_confirmable_example =
    proposal_confirmable chain at_proposal proposing (auth_of 1) next_key 300 funded made_outcome
      (record {
        wallet_id = id;
        new_key = next_key;
        guardian = guardian_key;
        opens_at = pos 261200;
      })
      at_confirmation funded (pos 261200) proposing_succeeds refl refl (omega arith) (omega arith)

-- The owner cancels long after the proposal opened.
abbrev cancelling : CancelRotation
cancelling = record { wallet = awaiting; vault = vault; relayer = relayer }

abbrev cancelled_outcome : Outcome RotationCancelled
cancelled_outcome = record {
  event = record { wallet_id = id; new_key = next_key };
  wallet = guarded_at 3;
  bank = move vault relayer 300 funded;
}

cancelling_succeeds :
    cancel chain at_cancel cancelling (auth_of 2) 300 funded ≡ ok cancelled_outcome
unfolding cancel verify_enclave_authorization load_secp256r1_payload bytes_eq to_bytes to_le_bytes
    serialize i64_bits require_active_key take_rotation refund_relayer transfer_if_funded
cancelling_succeeds = refl

ended_not_confirmed_example :
    confirm at_confirmation (record { wallet = guarded_at 3 }) funded
    ≡ err (enclave_kit no_pending_rotation)
ended_not_confirmed_example =
    ended_not_confirmed chain at_cancel (guarded_at 3) at_confirmation funded
      (cancelled cancelling (auth_of 2) 300 funded cancelled_outcome cancelling_succeeds refl)

set_guardians_names_example :
    ((i : ℕ) (key : Bytes) → get_elem? one_guardian i ≢ Option.some (Guardian.web_authn key))
    × ((key : Bytes) (i : ℕ)
        → (p256_guardian (guarded_at 1) key ≡ Option.some i) ↔ IsFirstListed key i one_guardian)
    × ((guarded_at 1).rotation.pending ≡ false)
    × (one_guardian ≡ one_guardian)
set_guardians_names_example =
    set_guardians_names chain at_naming naming (auth_of 0) one_guardian 300 bumps funded named
      naming_succeeds

-- A guardian signs a payment.
abbrev guardian_paying : TransferSol
guardian_paying = record { wallet = wallet_at 1; vault = vault; to = payee; relayer = relayer }

only_active_key_example :
    transfer chain at_guardian_pay guardian_paying (auth_of 1) 1000 300 bumps funded
    ≡ err (enclave_kit key_mismatch)
only_active_key_example =
    only_active_key chain at_guardian_pay (auth_of 1) 300 funded
      (transfers guardian_paying 1000 bumps) guardian_key (wallet_at 2) guardian_pay
      guardian_is_not_owner
