-- ===== src/Kora/Calls.antt =====
-- The requests of the run: the wallet's nonce, rents, balances, the funding transaction, and the polling
-- of a signature.
pub mod Settled
pub mod Polling
pub mod Requests
use enclavekit_anchor.Common.{ℕ, zero, suc, ◌+◌, Bytes, true, List, [], ◌∷◌}
use mathlib.Core.Option
use mathlib.Core.Option.{Option, none, some}
use enclavekit_anchor.Program.State.{SmartWallet}
use enclavekit_anchor.Vectors.Text
use enclavekit_anchor.Vectors.Text.{
  Text, codes, Value, boolean, text, number, array, object, end_items, item, end_members, member,
}
use enclavekit_anchor.Vectors.Tools.{Tools}
use enclavekit_anchor.Kora.Confirm.{Status, Confirmation, round}
use enclavekit_anchor.Kora.Crates.{Crates}
use enclavekit_anchor.Kora.Json.{as_str, at_name, at_index, non_null, str_field, str_item, u64_of}
use enclavekit_anchor.Kora.Rpc.{Net, Run, ◌>>=◌, pure_of, and_then, call}

-- `json!([..])` of one and of two values
abbrev pub one_item : Value → Value
one_item v = array (item v end_items)

abbrev pub two_items : Value → Value → Value
two_items v w = array (item v (item w end_items))

-- `{ "commitment": "confirmed" }`
abbrev pub confirmed_only : Value
confirmed_only = object (member (codes "commitment") (text (codes "confirmed")) end_members)

abbrev pub status_in : Value → Status
status_in status = record {
  err = non_null (at_name status (codes "err"));
  confirmation_status = as_str (at_name status (codes "confirmationStatus"));
}

-- `statuses["value"][0]`
unfoldable pub status_of : Value → Option Status
unfolding non_null at_index at_name as_str
status_of statuses = Option.map status_in (non_null (at_index (at_name statuses (codes "value")) 0))

-- What a round's answer makes of the rounds after it.
abbrev pub settle : Option Confirmation → Run (Unit {0}) → Run (Unit {0})
settle none later = later
settle (some Confirmation.confirmed) later = pure_of (some tt)
settle (some Confirmation.call_failed) later = pure_of none
settle (some Confirmation.failed) later = pure_of none
settle (some Confirmation.not_confirmed) later = pure_of none

module _ (t : Tools) (c : Crates t) (net : Net) where
  abbrev pub status_params : Text → Value
  status_params signature =
      two_items (one_item (text signature))
        (object (member (codes "searchTransactionHistory") (boolean true) end_members))

  -- The rounds that are left of `confirm`.
  unfoldable pub poll : ℕ → Text → Text → Run (Unit {0})
  unfolding call status_of round
  poll zero rpc signature = pure_of none
  poll (suc n) rpc signature = do
    statuses ← call net rpc (codes "getSignatureStatuses") (status_params signature)
    settle (round (some (status_of statuses))) (poll n rpc signature)

  unfoldable pub confirm : Text → Text → Run (Unit {0})
  unfolding poll
  confirm rpc signature = poll 60 rpc signature

  -- The account of an encoded state.
  unfoldable pub state_in : Text → Option SmartWallet
  state_in encoded = and_then (c.from_base64 encoded) λ bytes. c.try_deserialize bytes

  -- The nonce of an account: `some none` where there is none.
  unfoldable pub nonce_of : Option Value → Option (Option ℕ)
  unfolding at_name str_item state_in
  nonce_of none = some none
  nonce_of (some account) =
      and_then (str_item (at_name account (codes "data")) 0)
        λ encoded. Option.map (λ (w : SmartWallet). some w.nonce) (state_in encoded)

  unfoldable pub wallet_nonce : Text → Bytes → Run (Option ℕ)
  unfolding call non_null nonce_of
  wallet_nonce rpc wallet = do
    info ← call net rpc (codes "getAccountInfo") (
        two_items (text (t.to_base58 wallet)) (
          object (
            member (codes "encoding") (text (codes "base64"))
              (member (codes "commitment") (text (codes "confirmed")) end_members))))
    pure_of (nonce_of (non_null (at_name info (codes "value"))))

  unfoldable pub rent_exempt_minimum : Text → ℕ → Run ℕ
  unfolding call u64_of
  rent_exempt_minimum rpc space = do
    rent ← call net rpc (codes "getMinimumBalanceForRentExemption") (one_item (number space))
    pure_of (u64_of rent)

  unfoldable pub balance : Text → Bytes → Run ℕ
  unfolding call u64_of
  balance rpc address = do
    reply ←
        call net rpc (codes "getBalance") (two_items (text (t.to_base58 address)) confirmed_only)
    pure_of (u64_of (at_name reply (codes "value")))

  -- The blockhash of a reply, by its text.
  unfoldable pub hash_in : Value → Option Bytes
  unfolding str_field
  hash_in v = and_then (str_field v (codes "blockhash")) λ hash. c.from_base58 hash

  unfoldable pub funding : c.Keypair → Bytes → ℕ → Bytes → Option Bytes
  funding funder to amount blockhash =
      c.sign_transaction
        (t.new_with_blockhash (c.transfer (c.pubkey funder) to amount ∷ []) (c.pubkey funder)
          blockhash)
        funder

  unfoldable pub fund : Text → c.Keypair → Bytes → ℕ → Run Text
  unfolding call hash_in funding confirm as_str
  fund rpc funder to amount = do
    latest ← call net rpc (codes "getLatestBlockhash") (one_item confirmed_only)
    blockhash ← pure_of (hash_in (at_name latest (codes "value")))
    transaction ← pure_of (funding funder to amount blockhash)
    sent ← call net rpc (codes "sendTransaction") (
        two_items (text (t.to_base64 transaction)) (
          object (
            member (codes "encoding") (text (codes "base64"))
              (member (codes "preflightCommitment") (text (codes "confirmed")) end_members))))
    signature ← pure_of (as_str sent)
    _ ← confirm rpc signature
    pure_of (some signature)
