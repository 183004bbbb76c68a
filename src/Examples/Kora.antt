-- ===== src/Examples/Kora.antt =====
-- A run through a relayer on a scripted network, and the theorems on the whole run applied to it.
use enclavekit_anchor.Common.{
  ℕ, ◌<◌, pos, Bytes, bytes_eq, [], ◌∷◌, replicate, if◌then◌else◌, ◌≡◌, ◌↔◌, refl,
}
use mathlib.Core.Option.{none, some}
use enclavekit_anchor.Encoding.Wallet
use enclavekit_anchor.Program.Platform.{Platform, Bank}
use enclavekit_anchor.Program.Lifecycle.Steps.{zeroed_wallet}
use enclavekit_anchor.Program.Instructions.Outcome.{Outcome}
use enclavekit_anchor.Vectors.Text.{
  codes, Value, null, text, number, array, end_items, item, object, end_members, member,
}
use enclavekit_anchor.Kora.Plan.{lamports}
use enclavekit_anchor.Vectors.Key.{wallet_id}
use enclavekit_anchor.Kora.Crates.{Crates}
use enclavekit_anchor.Kora.Rpc.{Log, Net}
use enclavekit_anchor.Kora.TransferRequest.{TransferSolRequest}
use enclavekit_anchor.Kora.Calls.{confirm}
use enclavekit_anchor.Kora.Calls.Polling.{reply_at, confirm_succeeds}
use enclavekit_anchor.Kora.Calls.Settled.{HasStatus, IsConfirmed, IsWaiting}
use enclavekit_anchor.Kora.Main.{Machine, Prepared, unsigned_transaction}
use enclavekit_anchor.Kora.Main.Delivered.{vault}
use enclavekit_anchor.Examples.Chain.{chain, payee, relayer, bumps}
use enclavekit_anchor.Examples.Generator.{tools}

-- Texts stand for the bytes that they encode.
abbrev crates : Crates tools
crates = record {
  from_base58 = λ address. some address;
  from_base64 = λ encoded. some encoded;
  try_deserialize = λ bytes. none;
  init_space = 200;
  Keypair = Bytes;
  read_keypair_file = λ path. some (replicate 32 3);
  pubkey = λ payer. payer;
  transfer =
      λ from to amount. record { program_id = replicate 32 0; accounts = []; data_bytes = [] };
  sign_transaction = λ message payer. some [];
}

-- The replies in their order: the relayer's address, no account, the rent, the vault's balance, and
-- the blockhash.
abbrev reply_after : Log → Value
reply_after [] = object (member (codes "signer_address") (text relayer) end_members)
reply_after (_ ∷ []) = object (member (codes "value") null end_members)
reply_after (_ ∷ _ ∷ []) = number 2000000
reply_after (_ ∷ _ ∷ _ ∷ []) = object (member (codes "value") (number 20000000) end_members)
reply_after (_ ∷ _ ∷ _ ∷ _ ∷ []) =
    object (member (codes "blockhash") (text (replicate 32 6)) end_members)
reply_after (_ ∷ _ ∷ _ ∷ _ ∷ _ ∷ _) = null

abbrev scripted : Net
scripted log url body = some (object (member (codes "result") (reply_after log) end_members))

-- Without `ENCLAVE_SEED`: the seed is random.
abbrev machine : Machine
machine = record {
  env = λ name. if bytes_eq name (codes "HOME") then some (codes "/home") else none;
  random = some (replicate 32 7);
  drawn = payee;
  clock = λ log. some (pos 1000000);
  net = scripted;
}

abbrev asked_for : TransferSolRequest
asked_for = record {
  wallet_id = 2 ∷ replicate 31 7;
  to = payee;
  lamports = 10000000;
  nonce = 0;
  expires_at = pos 1000120;
  max_relayer_fee = 2010000;
  relayer_fee = 2010000;
}

abbrev first_use : Prepared tools crates machine
first_use = record {
  key = 7;
  relayer = relayer;
  read = none;
  request = asked_for;
  transaction = unsigned_transaction tools crates machine asked_for 7 relayer (replicate 32 6);
}

abbrev platform : Platform
platform = record chain { sha256 = tools.sha256 }

abbrev funded_vault : Bank
funded_vault = λ address. 20000000

abbrev vault_of : Bytes
vault_of =
    vault tools crates machine platform first_use zeroed_wallet (pos 1000060) 890880 bumps
      funded_vault

-- A transaction that is confirmed at the third request.
abbrev slow : Net
slow log url body = some (
    object (
      member (codes "result")
        (object (
          member (codes "value")
            (array (
              item
                (elim log [
                  | [] ↦ null
                  | _ ∷ [] ↦ null
                  | _ ↦
                      object
                        (member (codes "confirmationStatus") (text (codes "finalized")) end_members)
                ])
                end_items))
            end_members))
        end_members))

confirm_succeeds_example :
    ((confirm tools crates slow (codes "rpc") (codes "signature") []).0 ≡ some tt) ↔ (
      (i : ℕ) × (i < 60)
      × HasStatus (reply_at tools crates slow (codes "rpc") (codes "signature") [] i) IsConfirmed
      × ((j : ℕ)
          → j < i
          → HasStatus
              (reply_at tools crates slow (codes "rpc") (codes "signature") [] j)
              IsWaiting))
confirm_succeeds_example = confirm_succeeds tools crates slow (codes "rpc") (codes "signature") []

slow_is_confirmed : (confirm tools crates slow (codes "rpc") (codes "signature") []).0 ≡ some tt
unfolding confirm bytes_eq
slow_is_confirmed = refl
