-- ===== src/Vectors/Transaction/Delivered.antt =====
-- The transaction of transaction.json, as the program runs its second instruction after the first.
use enclavekit_anchor.Common.{
  ℕ, ◌+◌, ◌≤◌, ◌<◌, ◌^◌, ℤ, ◌<ℤ◌, true, false, List, [], ◌∷◌, ◌≡◌, ◌≢◌, refl, ap, ◌∙◌, arith,
}
use mathlib.Core.Option.{some}
use enclavekit_anchor.Encoding.Action.{Action, IsAction}
use enclavekit_anchor.Program.Constants.{program_id}
use enclavekit_anchor.Program.Errors.{Result, ok}
use enclavekit_anchor.Program.State.{SmartWallet, is_new}
use enclavekit_anchor.Program.Events.{Event, SolTransferred, sol_transferred}
use enclavekit_anchor.Program.Platform.{Sysvars, Platform, Bank}
use enclavekit_anchor.Program.Precompile.Layout.{precompile_data}
use enclavekit_anchor.Program.Authorization.{verify_enclave_authorization, vault_seeds}
use enclavekit_anchor.Program.Instructions.Outcome.{Outcome, Bumps}
use enclavekit_anchor.Program.Instructions.TransferSol.{TransferSol, transfer}
use enclavekit_anchor.Program.Instructions.TransferSol.Transferred.{transfer-IsTransferred}
use enclavekit_anchor.Program.Instructions.TransferSol.Vault.{transfer_succeeds}
use enclavekit_anchor.Program.Entry.{transfer_sol}
use enclavekit_anchor.Vectors.Inputs
use enclavekit_anchor.Vectors.Client.{ClientInstruction, seen, InstructionArgs, ClientAccounts}
use enclavekit_anchor.Vectors.Tools.{Tools}
use enclavekit_anchor.Vectors.Key.{EnclaveKey, compressed_pubkey, wallet_id, sign}
use enclavekit_anchor.Vectors.Actions.{signed_bytes}
use enclavekit_anchor.Vectors.Actions.Signed.{header, sysvars_after, signed_instruction, verified}
use enclavekit_anchor.Vectors.Instructions.{
  wallet_address, vault_address, event_authority, args_and_accounts, program_instruction,
  program_instruction_vector,
}
use enclavekit_anchor.Vectors.Transaction.{
  TransactionVector, empty_signature, precompile_instruction, transaction_vector,
}

abbrev pub action : Action
action = Action.transfer_sol Inputs.to Inputs.lamports

-- The event of the transfer.
abbrev pub paid_out : SmartWallet → SolTransferred
paid_out w = record {
  wallet_id = w.wallet_id;
  to = Inputs.to;
  lamports = Inputs.lamports;
  relayer_fee = Inputs.relayer_fee;
}

action_fits : IsAction action
action_fits = ((refl, omega arith), omega arith)

module _ (t : Tools) (p : Platform) (key : EnclaveKey t) (w : SmartWallet) (now : ℤ) (rent : ℕ)
    (bumps : Bumps) (bank : Bank) where
  -- The sysvars at an instruction that comes after this one.
  abbrev pub sysvars_at : ClientInstruction → Sysvars
  sysvars_at first = record {
    previous_instruction = ok (seen first);
    unix_timestamp = ok now;
    rent_minimum = ok rent;
  }

  abbrev pub after_precompile : Sysvars
  after_precompile = sysvars_at (precompile_instruction t key action)

  abbrev pub accounts : TransferSol
  accounts = record {
    wallet = w;
    vault = vault_address t (wallet_id t key);
    to = Inputs.to;
    relayer = Inputs.relayer;
  }

  -- The program's instruction that calls `transfer_sol` with the arguments of `run_handler`.
  abbrev pub handler_call : ClientInstruction
  handler_call = record {
    program_id = program_id;
    accounts = t.account_metas (
        ClientAccounts.transfer_sol (wallet_address t (wallet_id t key)) accounts.vault accounts.to
          accounts.relayer t.instructions_sysvar_id t.system_program_id (event_authority t)
          program_id);
    data_bytes = t.instruction_data (
        InstructionArgs.transfer_sol (wallet_id t key) Inputs.nonce Inputs.expires_at
          Inputs.max_relayer_fee Inputs.lamports Inputs.relayer_fee);
  }

  -- The vector lists the message of these two instructions, in this order, and their unsigned
  -- transaction, which the relayer pays for.
  abbrev pub HasPair : TransactionVector → ClientInstruction → ClientInstruction → Type 0
  HasPair v first second =
      (v.message.bytes
        ≡ t.message_bytes
            (t.new_with_blockhash (first ∷ second ∷ []) Inputs.relayer Inputs.blockhash))
      × (v.transaction
          ≡ t.to_base64 (
              t.transaction_bytes (empty_signature ∷ [])
                (t.new_with_blockhash (first ∷ second ∷ []) Inputs.relayer Inputs.blockhash)))
      × (v.program_instruction.data_bytes.bytes ≡ second.data_bytes)

  -- The handler of that call, in a transaction whose instruction before it is `first`.
  abbrev pub run_handler : ClientInstruction → Result (Outcome (List Event))
  run_handler first =
      transfer_sol p (sysvars_at first) accounts bumps (wallet_id t key) Inputs.nonce
        Inputs.expires_at Inputs.max_relayer_fee Inputs.lamports Inputs.relayer_fee bank

  module _ (same_borsh : p.borsh ≡ t.borsh) (used : is_new w ≡ false)
      (at_nonce : w.nonce ≡ Inputs.nonce) (in_time : now <ℤ Inputs.expires_at) where
    same_sysvars :
        after_precompile
        ≡ sysvars_after
            (precompile_data 0
              (compressed_pubkey t key)
              (sign t key (signed_bytes t key action))
              (signed_bytes t key action))
            now
            rent
    unfolding seen precompile_instruction sign
    same_sysvars =
        ap
          (λ (ix : ClientInstruction). record {
            previous_instruction = ok (seen ix);
            unix_timestamp = ok now;
            rent_minimum = ok rent;
          })
          (signed_instruction t key action (sign t key (signed_bytes t key action)) action_fits
            (t.length-signature_bytes _))

    verified_after :
        verify_enclave_authorization p after_precompile w
          (header t key)
          action
          bumps.wallet
          bumps.vault
        ≡ ok (compressed_pubkey t key, record w { nonce = Inputs.nonce + 1 })
    unfolding sign
    verified_after =
        ap
          (λ (sys : Sysvars).
            verify_enclave_authorization p sys w (header t key) action bumps.wallet bumps.vault)
          same_sysvars
        ∙ verified t p key w now rent bumps.wallet bumps.vault same_borsh used at_nonce in_time
            action (sign t key (signed_bytes t key action)) action_fits (t.length-signature_bytes _)

    delivered :
        compressed_pubkey t key ≡ w.active_key
        → Inputs.lamports + Inputs.max_relayer_fee + rent ≤ bank accounts.vault
        → p.create_program_address (vault_seeds w) ≡ some accounts.vault
        → accounts.vault ≢ Inputs.to
        → accounts.vault ≢ Inputs.relayer
        → p.is_payable Inputs.to ≡ true
        → p.is_payable Inputs.relayer ≡ true
        → bank accounts.vault + bank Inputs.to + bank Inputs.relayer < 2 ^ 64
        → (o : Outcome SolTransferred) × (transfer p after_precompile accounts
              (header t key)
              Inputs.lamports
              Inputs.relayer_fee
              bumps
              bank
            ≡ ok o)
          × (o.wallet ≡ record w { nonce = Inputs.nonce + 1 })
          × (o.event ≡ paid_out w)
    delivered active enough seeds vt vr pays_to pays_relayer supply =
        let (o, ran, same, fee) =
          transfer_succeeds p after_precompile accounts (header t key) Inputs.lamports
            Inputs.relayer_fee bumps bank (compressed_pubkey t key)
            (record w { nonce = Inputs.nonce + 1 }) rent verified_after active refl enough seeds vt
            vr pays_to pays_relayer supply in
        let told =
          (transfer-IsTransferred p after_precompile accounts (header t key) Inputs.lamports
            Inputs.relayer_fee bumps bank o ran).told in
        (o, ran, same, told ∙ ap (λ (x : SmartWallet). paid_out x) same)

    -- The generator lists a transaction of two instructions, of which the second calls the transfer's
    -- handler with the vectors' arguments. Run with these arguments right after the listed first
    -- instruction, before the expiry, by a wallet in use that has the test key and the vectors' nonce,
    -- the handler succeeds: it raises the nonce by 1, and emits one event, the transfer of the lamports
    -- with the whole fee refunded. The vault must hold the lamports, the fee cap and the rent, be the
    -- address of its seeds and neither the destination nor the relayer, both of which can be credited;
    -- the balances together fit in `u64`.
    pub transaction_delivered :
        compressed_pubkey t key ≡ w.active_key
        → Inputs.lamports + Inputs.max_relayer_fee + rent ≤ bank accounts.vault
        → p.create_program_address (vault_seeds w) ≡ some accounts.vault
        → accounts.vault ≢ Inputs.to
        → accounts.vault ≢ Inputs.relayer
        → p.is_payable Inputs.to ≡ true
        → p.is_payable Inputs.relayer ≡ true
        → bank accounts.vault + bank Inputs.to + bank Inputs.relayer < 2 ^ 64
        → (v : TransactionVector) × (first : ClientInstruction) × (transaction_vector t key
            ≡ some v)
          × HasPair v first handler_call
          × (o : Outcome (List Event)) × (run_handler first ≡ ok o)
          × (o.wallet ≡ record w { nonce = Inputs.nonce + 1 })
          × (o.event ≡ sol_transferred (paid_out w) ∷ [])
    unfolding transaction_vector program_instruction args_and_accounts program_instruction_vector
        transfer_sol
    transaction_delivered active enough seeds vt vr pays_to pays_relayer supply =
        let (o, ran, same, told) =
          delivered active enough seeds vt vr pays_to pays_relayer supply in
        (
          _,
          precompile_instruction t key action,
          refl,
          (refl, refl, refl),
          record { event = sol_transferred (paid_out w) ∷ []; wallet = o.wallet; bank = o.bank },
          rw ran (rw used (rw told refl)),
          same,
          refl,
        )
