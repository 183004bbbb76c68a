-- ===== src/Kora/Main/Delivered.antt =====
-- The pair of instructions that the run prepares, as the program runs it.
use enclavekit_anchor.Common.{ℕ, ◌+◌, ℤ, Bytes, List, [], ◌∷◌, ◌≡◌}
use mathlib.Core.Option.{Option}
use enclavekit_anchor.Program.Constants.{program_id}
use enclavekit_anchor.Program.Errors.{Result, ok}
use enclavekit_anchor.Program.State.{SmartWallet}
use enclavekit_anchor.Program.Events.{Event, SolTransferred}
use enclavekit_anchor.Program.Platform.{Sysvars, Platform, Bank}
use enclavekit_anchor.Program.Instructions.Outcome.{Outcome, Bumps}
use enclavekit_anchor.Program.Instructions.TransferSol.{TransferSol}
use enclavekit_anchor.Program.Entry.{transfer_sol}
use enclavekit_anchor.Vectors.Tools.{Tools}
use enclavekit_anchor.Vectors.Key.{wallet_id}
use enclavekit_anchor.Vectors.Instructions.{wallet_address, vault_address, event_authority}
use enclavekit_anchor.Vectors.Transaction.{empty_signature}
use enclavekit_anchor.Vectors.Client.{ClientInstruction, seen, InstructionArgs, ClientAccounts}
use enclavekit_anchor.Kora.Crates.{Crates}
use enclavekit_anchor.Kora.Plan.{lamports}
use enclavekit_anchor.Kora.TransferRequest.{preimage, precompile_instruction}
use enclavekit_anchor.Kora.TransferRequest.Accepted.{wallet_at_use}
use enclavekit_anchor.Kora.Main.{Machine, Prepared}

module _ (t : Tools) (c : Crates t) (m : Machine) (p : Platform) (d : Prepared t c m)
    (w : SmartWallet) (now : ℤ) (rent : ℕ) (bumps : Bumps) (bank : Bank) where
  -- The sysvars at an instruction that comes after this one.
  abbrev pub sysvars_at : ClientInstruction → Sysvars
  sysvars_at first = record {
    previous_instruction = ok (seen first);
    unix_timestamp = ok now;
    rent_minimum = ok rent;
  }

  abbrev pub at_transfer : Sysvars
  at_transfer = sysvars_at (precompile_instruction t d.key (preimage t d.request))

  abbrev pub vault : Bytes
  vault = vault_address t (wallet_id t d.key)

  abbrev pub accounts : TransferSol
  accounts = record { wallet = w; vault = vault; to = d.request.to; relayer = d.relayer }

  -- The program's instruction that calls `transfer_sol` with the arguments of `run_handler`.
  abbrev pub handler_call : ClientInstruction
  handler_call = record {
    program_id = program_id;
    accounts = t.account_metas (
        ClientAccounts.transfer_sol (wallet_address t d.request.wallet_id)
          (vault_address t d.request.wallet_id) accounts.to accounts.relayer
          t.instructions_sysvar_id t.system_program_id (event_authority t) program_id);
    data_bytes = t.instruction_data (
        InstructionArgs.transfer_sol d.request.wallet_id d.request.nonce d.request.expires_at
          d.request.max_relayer_fee d.request.lamports d.request.relayer_fee);
  }

  -- The prepared text is the unsigned transaction of these two instructions, in this order, which the
  -- relayer pays for.
  abbrev pub IsTransactionOf : ClientInstruction → ClientInstruction → Type 0
  IsTransactionOf first second =
      (blockhash : Bytes) × (d.transaction
        ≡ t.to_base64 (
            t.transaction_bytes (empty_signature ∷ [])
              (t.new_with_blockhash (first ∷ second ∷ []) d.relayer blockhash)))

  -- The handler of that call, in a transaction whose instruction before it is `first`.
  abbrev pub run_handler : ClientInstruction → Result (Outcome (List Event))
  run_handler first =
      transfer_sol p (sysvars_at first) accounts bumps d.request.wallet_id d.request.nonce
        d.request.expires_at d.request.max_relayer_fee d.request.lamports d.request.relayer_fee bank

  -- The wallet that signs, before and after.
  abbrev pub signing : SmartWallet
  signing = wallet_at_use t p d.key d.request w bumps.wallet bumps.vault

  abbrev pub signed_for : SmartWallet
  signed_for = record signing { nonce = d.request.nonce + 1 }

  -- The event of the transfer, the whole fee refunded.
  abbrev pub in_full : SolTransferred
  in_full = record {
    wallet_id = signing.wallet_id;
    to = d.request.to;
    lamports = lamports;
    relayer_fee = d.request.relayer_fee;
  }
