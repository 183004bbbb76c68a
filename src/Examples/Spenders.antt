-- ===== src/Examples/Spenders.antt =====
-- The theorem on who spends from a vault, applied to a guardian's proposal,
-- and the one on a vault over a sequence of instructions.
use enclavekit_anchor.Common.{
  ◌+◌, ◌≤◌, bytes_eq, bytes_ne, false, to_le_bytes, i64_bits, subst, ◌≡◌, ◌≢◌, refl, arith,
}
use enclavekit_anchor.Encoding.Preimage.{to_bytes}
use enclavekit_anchor.Program.Errors.{ok, ok_injective}
use enclavekit_anchor.Program.State.{is_new}
use enclavekit_anchor.Program.Platform.{Bank}
use enclavekit_anchor.Program.Precompile.{SignedPayload, load_secp256r1_payload}
use enclavekit_anchor.Program.Authorization.{expected_preimage}
use enclavekit_anchor.Program.Lifecycle.Vault.{Passes, start, unowned, credited, unowned_keeps}
use enclavekit_anchor.Program.Instructions.Payers.{proposed}
use enclavekit_anchor.Program.Instructions.Spenders.{HasSpender, spent_by_signer}
use enclavekit_anchor.Examples.Chain.{
  chain, vault, auth_of, owner_key, guardian_key, next_key, funded,
}
use enclavekit_anchor.Examples.ActionCodec.{serialize}
use enclavekit_anchor.Examples.Authorizations.{guarded_at, at_proposal}
use enclavekit_anchor.Examples.History.{proposing, made_outcome, proposing_succeeds}

guarded_is_used : is_new (guarded_at 1) ≡ false
unfolding is_new bytes_eq
guarded_is_used = refl

spent_by_signer_example :
    HasSpender chain at_proposal (auth_of 1) 300 funded vault made_outcome.bank (guarded_at 1)
spent_by_signer_example =
    spent_by_signer chain at_proposal (auth_of 1) 300 funded vault made_outcome.bank
      (proposed proposing next_key made_outcome refl proposing_succeeds refl) guarded_is_used

guardian_signed :
    (payload : SignedPayload)
    → load_secp256r1_payload at_proposal.previous_instruction ≡ ok payload
    → payload.pubkey ≢ owner_key
unfolding load_secp256r1_payload to_bytes to_le_bytes serialize i64_bits bytes_eq expected_preimage
guardian_signed payload h =
    subst (λ (q : SignedPayload). q.pubkey ≢ owner_key) (ok_injective _ payload h)
      (bytes_ne guardian_key owner_key refl)

-- The proposal, and then a deposit.
abbrev deposited : Bank
deposited address = made_outcome.bank address + 1000

proposed_and_deposited : Passes chain vault funded deposited (0 + 500)
unfolding bytes_eq
proposed_and_deposited =
    credited
      (unowned start at_proposal (auth_of 1) 300
        (proposed proposing next_key made_outcome refl proposing_succeeds refl) guarded_is_used
        guardian_signed)
      (omega arith)

unowned_keeps_example : funded vault ≤ deposited vault + (0 + 500)
unowned_keeps_example = unowned_keeps chain vault proposed_and_deposited
