-- ===== src/Examples/Payments.antt =====
-- The theorems on payments from the vault, applied.
use enclavekit_anchor.Examples.Transfers.{transfer_if_funded}
use enclavekit_anchor.Examples.ActionCodec.{serialize}
use enclavekit_anchor.Encoding.Preimage.{to_bytes}
use enclavekit_anchor.Program.Precompile.{load_secp256r1_payload}
use enclavekit_anchor.Common.{to_le_bytes, i64_bits, ◌+◌, ◌≤◌, bytes_eq, ◌≡◌, ◌≢◌, refl}
use enclavekit_anchor.Program.Errors.{ok}
use enclavekit_anchor.Program.Events.{SolTransferred, VaultSwept, WalletClosed}
use enclavekit_anchor.Program.Platform.{move}
use enclavekit_anchor.Program.Authorization.{
  transfer_from_vault, verify_enclave_authorization, require_active_key, refund_relayer,
}
use enclavekit_anchor.Program.Instructions.Outcome.{Outcome}
use enclavekit_anchor.Program.Instructions.TransferSol.{TransferSol, transfer}
use enclavekit_anchor.Program.Instructions.TransferSol.Vault.{transfer_keeps_rent}
use enclavekit_anchor.Program.Instructions.SweepVault.{SweepVault, sweep}
use enclavekit_anchor.Program.Instructions.SweepVault.Vault.{sweep_empties_vault}
use enclavekit_anchor.Program.Instructions.CloseWallet.{CloseWallet, close}
use enclavekit_anchor.Program.Instructions.CloseWallet.Vault.{close_empties_vault}
use enclavekit_anchor.Program.Lifecycle.Steps.{zeroed_wallet}
use enclavekit_anchor.Examples.Chain.{
  chain, vault, payee, relayer, id, auth_of, bumps, funded, wallet_at, bytes_ne,
}
use enclavekit_anchor.Examples.Authorizations.{at_first_pay, at_sweep, at_close}

vault_is_not_payee : vault ≢ payee
unfolding bytes_eq
vault_is_not_payee = bytes_ne vault payee refl

vault_is_not_relayer : vault ≢ relayer
unfolding bytes_eq
vault_is_not_relayer = bytes_ne vault relayer refl

payee_is_not_vault : payee ≢ vault
unfolding bytes_eq
payee_is_not_vault = bytes_ne payee vault refl

payee_is_not_relayer : payee ≢ relayer
unfolding bytes_eq
payee_is_not_relayer = bytes_ne payee relayer refl

abbrev paying : TransferSol
paying = record { wallet = zeroed_wallet; vault = vault; to = payee; relayer = relayer }

abbrev paid : Outcome SolTransferred
paid = record {
  event = record { wallet_id = id; to = payee; lamports = 1000; relayer_fee = 300 };
  wallet = wallet_at 1;
  bank = move vault relayer 300 (move vault payee 1000 funded);
}

paying_succeeds : transfer chain at_first_pay paying (auth_of 0) 1000 300 bumps funded ≡ ok paid
unfolding transfer verify_enclave_authorization load_secp256r1_payload bytes_eq to_bytes to_le_bytes
    serialize i64_bits require_active_key transfer_from_vault transfer_if_funded refund_relayer move
paying_succeeds = refl

transfer_keeps_rent_example :
    (paid.bank vault + 1000 + 300 ≡ 1000000)
    × (paid.event.relayer_fee ≤ 500)
    × (890880 ≤ paid.bank vault)
    × (paid.event.lamports ≡ 1000)
transfer_keeps_rent_example =
    transfer_keeps_rent chain at_first_pay paying (auth_of 0) 1000 300 bumps funded
      vault_is_not_payee vault_is_not_relayer paid 890880 refl paying_succeeds

abbrev sweeping : SweepVault
sweeping = record { wallet = wallet_at 1; vault = vault; to = payee; relayer = relayer }

abbrev swept_outcome : Outcome VaultSwept
swept_outcome = record {
  event = record { wallet_id = id; to = payee; lamports = 999700; relayer_fee = 300 };
  wallet = wallet_at 2;
  bank = move vault relayer 300 (move vault payee 999700 funded);
}

sweeping_succeeds : sweep chain at_sweep sweeping (auth_of 1) 300 bumps funded ≡ ok swept_outcome
unfolding sweep verify_enclave_authorization load_secp256r1_payload bytes_eq to_bytes to_le_bytes
    serialize i64_bits require_active_key transfer_from_vault transfer_if_funded refund_relayer move
sweeping_succeeds = refl

sweep_empties_vault_example :
    (swept_outcome.bank vault ≡ 0)
    × (swept_outcome.event.lamports + swept_outcome.event.relayer_fee ≡ 1000000)
    × (swept_outcome.event.relayer_fee ≤ 500)
sweep_empties_vault_example =
    sweep_empties_vault chain at_sweep sweeping (auth_of 1) 300 bumps funded swept_outcome
      vault_is_not_payee vault_is_not_relayer sweeping_succeeds

abbrev closing : CloseWallet
closing = record { wallet = wallet_at 1; vault = vault; to = payee; relayer = relayer }

abbrev closed_outcome : Outcome WalletClosed
closed_outcome = record {
  event = record { wallet_id = id; to = payee; lamports = 999700; relayer_fee = 300 };
  wallet = wallet_at 2;
  bank = move vault relayer 300 (move vault payee 999700 funded);
}

closing_succeeds : close chain at_close closing (auth_of 1) 300 funded ≡ ok closed_outcome
unfolding close verify_enclave_authorization load_secp256r1_payload bytes_eq to_bytes to_le_bytes
    serialize i64_bits require_active_key transfer_from_vault transfer_if_funded move
closing_succeeds = refl

close_empties_vault_example :
    (closed_outcome.bank vault ≡ 0)
    × (closed_outcome.event.lamports + closed_outcome.event.relayer_fee ≡ 1000000)
    × (closed_outcome.event.relayer_fee ≤ 500)
close_empties_vault_example =
    close_empties_vault chain at_close closing (auth_of 1) 300 funded closed_outcome
      vault_is_not_payee vault_is_not_relayer closing_succeeds
