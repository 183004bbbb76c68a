-- ===== src/Examples/Handlers.antt =====
-- The handlers run on wallets that they create.
use enclavekit_anchor.Program.Instructions.SetGuardians.{any_web_authn}
use enclavekit_anchor.Program.Instructions.SetGuardians
use enclavekit_anchor.Examples.Transfers.{transfer_if_funded}
use enclavekit_anchor.Examples.ActionCodec.{serialize}
use enclavekit_anchor.Encoding.Preimage.{to_bytes}
use enclavekit_anchor.Program.Precompile.{load_secp256r1_payload}
use enclavekit_anchor.Program.Authorization.{
  refund_relayer, require_active_key, transfer_from_vault, verify_enclave_authorization,
}
use enclavekit_anchor.Common.{i64_bits, bytes_eq, to_le_bytes, pos, List, [], ◌∷◌, ◌≡◌, refl}
use enclavekit_anchor.Program.Errors.{ok}
use enclavekit_anchor.Program.State.{action_guardian_from, guardian_slot_from, is_new}
use enclavekit_anchor.Program.Events.{
  Event, SolTransferred, wallet_created, sol_transferred, vault_swept, guardians_set,
}
use enclavekit_anchor.Program.Platform.{move}
use enclavekit_anchor.Program.Instructions.Outcome.{Outcome}
use enclavekit_anchor.Program.Instructions.TransferSol.{transfer, TransferSol}
use enclavekit_anchor.Program.Instructions.SweepVault.{sweep, SweepVault}
use enclavekit_anchor.Program.Entry.{transfer_sol, sweep_vault, set_guardians}
use enclavekit_anchor.Program.Entry.Announced.{IsAnnounced}
use enclavekit_anchor.Program.Entry.Created.{transferred, HasHandled-IsAnnounced}
use enclavekit_anchor.Program.Lifecycle.Steps.{zeroed_wallet}
use enclavekit_anchor.Examples.Chain.{
  chain, vault, payee, relayer, owner_key, id, bumps, funded, wallet_at,
}
use enclavekit_anchor.Examples.Authorizations.{
  at_first_pay, at_naming, at_first_sweep, one_guardian, guarded_at,
}
use enclavekit_anchor.Examples.History.{naming}

abbrev paying : TransferSol
paying = record { wallet = zeroed_wallet; vault = vault; to = payee; relayer = relayer }

abbrev paid : Outcome (List Event)
paid = record {
  event =
      wallet_created (record { wallet_id = id; key = owner_key })
      ∷ sol_transferred (record { wallet_id = id; to = payee; lamports = 1000; relayer_fee = 300 })
      ∷ [];
  wallet = wallet_at 1;
  bank = move vault relayer 300 (move vault payee 1000 funded);
}

transfer_sol_pays :
    transfer_sol chain at_first_pay paying bumps id 0 (pos 2000000) 500 1000 300 funded ≡ ok paid
unfolding transfer_sol transfer verify_enclave_authorization load_secp256r1_payload bytes_eq
    to_bytes to_le_bytes serialize i64_bits require_active_key transfer_from_vault
    transfer_if_funded refund_relayer move
transfer_sol_pays = refl

HasHandled-IsAnnounced_example :
    (event : Event) × ((e : SolTransferred) × (event ≡ sol_transferred e)
      × (e.to ≡ payee)
      × (e.lamports ≡ 1000))
    × IsAnnounced chain (is_new zeroed_wallet) id (wallet_at 1) event paid.event
HasHandled-IsAnnounced_example =
    HasHandled-IsAnnounced chain at_first_pay bumps id 0 (pos 2000000) 500 300 funded
      (is_new zeroed_wallet) paid (transferred paying 1000 refl transfer_sol_pays)

abbrev sweeping : SweepVault
sweeping = record { wallet = zeroed_wallet; vault = vault; to = payee; relayer = relayer }

abbrev swept_events : Outcome (List Event)
swept_events = record {
  event =
      wallet_created (record { wallet_id = id; key = owner_key })
      ∷ vault_swept (record { wallet_id = id; to = payee; lamports = 999700; relayer_fee = 300 })
      ∷ [];
  wallet = wallet_at 1;
  bank = move vault relayer 300 (move vault payee 999700 funded);
}

sweep_vault_empties :
    sweep_vault chain at_first_sweep sweeping bumps id 0 (pos 2000000) 500 300 funded
    ≡ ok swept_events
unfolding sweep_vault sweep verify_enclave_authorization load_secp256r1_payload bytes_eq to_bytes
    to_le_bytes serialize i64_bits require_active_key transfer_from_vault transfer_if_funded
    refund_relayer move
sweep_vault_empties = refl

abbrev named_events : Outcome (List Event)
named_events = record {
  event =
      wallet_created (record { wallet_id = id; key = owner_key })
      ∷ guardians_set (record { wallet_id = id; guardians = one_guardian })
      ∷ [];
  wallet = guarded_at 1;
  bank = move vault relayer 300 funded;
}

set_guardians_names :
    set_guardians chain at_naming naming bumps id 0 (pos 2000000) 500 one_guardian 300 funded
    ≡ ok named_events
unfolding set_guardians SetGuardians.set_guardians verify_enclave_authorization
    load_secp256r1_payload bytes_eq to_bytes to_le_bytes serialize i64_bits action_guardian_from
    require_active_key any_web_authn refund_relayer transfer_if_funded guardian_slot_from
set_guardians_names = refl
