-- ===== src/Examples/Generated.antt =====
-- The theorems on the conformance vectors, applied to the generator of Generator.antt.
use enclavekit_anchor.Common.{
  pos, bytes_eq, false, List, [], ◌∷◌, length, All, ◌≡◌, ◌≢◌, refl, arith,
}
use mathlib.Core.Option.{some}
use enclavekit_anchor.Program.Errors.{ok}
use enclavekit_anchor.Program.Events.{Event, sol_transferred}
use enclavekit_anchor.Program.State.{SmartWallet, is_new}
use enclavekit_anchor.Program.Platform.{Bank}
use enclavekit_anchor.Program.Instructions.Outcome.{Outcome}
use enclavekit_anchor.Vectors.Inputs
use enclavekit_anchor.Vectors.Client.{ClientInstruction}
use enclavekit_anchor.Vectors.Key.{compressed_pubkey, from_seed, wallet_id}
use enclavekit_anchor.Vectors.Actions.{ActionsVector, actions_vector}
use enclavekit_anchor.Vectors.Actions.Accepted.{IsAccepted, actions_vector-IsAccepted}
use enclavekit_anchor.Vectors.Instructions.{vault_address}
use enclavekit_anchor.Vectors.States.{created}
use enclavekit_anchor.Vectors.Transaction.{TransactionVector, transaction_vector}
use enclavekit_anchor.Vectors.Transaction.Delivered.{
  HasPair, handler_call, run_handler, paid_out, transaction_delivered,
}
use enclavekit_anchor.Examples.Chain.{chain, vault, bumps, bytes_ne}
use enclavekit_anchor.Examples.Generator.{tools}

-- The test key's wallet at the vectors' nonce.
abbrev holder : SmartWallet
holder = record (created tools 1) { nonce = Inputs.nonce }

holder_used : is_new holder ≡ false
unfolding is_new bytes_eq created
holder_used = refl

holder_nonce : holder.nonce ≡ Inputs.nonce
holder_nonce = refl

holder_key : compressed_pubkey tools 1 ≡ holder.active_key
unfolding created
holder_key = refl

pub seed_key : from_seed tools Inputs.new_key_seed ≡ some 0x44
unfolding from_seed
seed_key = refl

pub seed_guardian : from_seed tools Inputs.guardian_seed ≡ some 0x55
unfolding from_seed
seed_guardian = refl

pub seed_passkey : from_seed tools Inputs.passkey_seed ≡ some 0x66
unfolding from_seed
seed_passkey = refl

actions_vector-IsAccepted_example :
    (v : ActionsVector) × (actions_vector tools 1 ≡ some v)
    × (length v.actions ≡ 6)
    × All (IsAccepted tools chain 1 holder (pos 1600000000) 890880 254 253) v.actions
actions_vector-IsAccepted_example =
    actions_vector-IsAccepted tools chain 1 holder (pos 1600000000) 890880 254 253 refl holder_used
      holder_nonce (omega arith) 0x44 0x55 seed_key seed_guardian

-- Every address holds twenty million lamports.
abbrev rich : Bank
rich = λ address. 20000000

vault_derived : vault_address tools (wallet_id tools 1) ≡ vault
unfolding vault_address
vault_derived = refl

vault_is_not_to : vault_address tools (wallet_id tools 1) ≢ Inputs.to
unfolding bytes_eq vault_address
vault_is_not_to = bytes_ne vault Inputs.to refl

vault_is_not_relayer : vault_address tools (wallet_id tools 1) ≢ Inputs.relayer
unfolding bytes_eq vault_address
vault_is_not_relayer = bytes_ne vault Inputs.relayer refl

seeds_derive : some vault ≡ some (vault_address tools (wallet_id tools 1))
unfolding vault_address
seeds_derive = refl

transaction_delivered_example :
    (v : TransactionVector) × (first : ClientInstruction) × (transaction_vector tools 1 ≡ some v)
    × HasPair tools chain 1 holder
        (pos 1600000000)
        890880
        bumps
        rich
        v
        first
        (handler_call tools chain 1 holder (pos 1600000000) 890880 bumps rich)
    × (o : Outcome (List Event)) × (run_handler tools chain 1 holder
          (pos 1600000000)
          890880
          bumps
          rich
          first
        ≡ ok o)
    × (o.wallet ≡ record holder { nonce = 8 })
    × (o.event ≡ sol_transferred (paid_out holder) ∷ [])
transaction_delivered_example =
    transaction_delivered tools chain 1 holder (pos 1600000000) 890880 bumps rich refl holder_used
      holder_nonce (omega arith) holder_key (omega arith) seeds_derive vault_is_not_to
      vault_is_not_relayer refl refl (omega arith)
