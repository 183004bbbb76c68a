-- ===== src/Kora/Calls/Requests.antt =====
-- How many requests each call of the run makes.
use enclavekit_anchor.Common.{bytes_eq, ℕ, zero, suc, Bytes, refl}
use mathlib.Core.Option.{Option, none, some}
use enclavekit_anchor.Vectors.Text.{Text, codes}
use enclavekit_anchor.Vectors.Tools.{Tools}
use enclavekit_anchor.Kora.Confirm.{Confirmation}
use enclavekit_anchor.Kora.Crates.{Crates}
use enclavekit_anchor.Kora.Json.{as_str, at_name}
use enclavekit_anchor.Kora.Rpc.{Net, Run}
use enclavekit_anchor.Kora.Rpc.Quiet.{IsQuiet, proceed-AtMost, same-AtMost, pure-AtMost, call_then}
use enclavekit_anchor.Kora.Calls.{
  settle, poll, confirm, wallet_nonce, rent_exempt_minimum, balance, hash_in, funding, fund,
}

settle-IsQuiet :
    (n : ℕ) (o : Option Confirmation) (later : Run (Unit {0}))
    → IsQuiet n later
    → IsQuiet n (settle o later)
settle-IsQuiet n none later h log = h log
settle-IsQuiet n (some Confirmation.confirmed) later h log = same-AtMost n log
settle-IsQuiet n (some Confirmation.call_failed) later h log = same-AtMost n log
settle-IsQuiet n (some Confirmation.failed) later h log = same-AtMost n log
settle-IsQuiet n (some Confirmation.not_confirmed) later h log = same-AtMost n log

module _ (t : Tools) (c : Crates t) (net : Net) (rpc : Text) where
  poll-IsQuiet : (n : ℕ) (signature : Text) → IsQuiet n (poll t c net n rpc signature)
  unfolding poll bytes_eq
  poll-IsQuiet zero signature log = same-AtMost 0 log
  poll-IsQuiet (suc n) signature log =
      call_then n net rpc _ _ log _ refl λ statuses. settle-IsQuiet n _ _ (poll-IsQuiet n signature)

  pub confirm-IsQuiet : (signature : Text) → IsQuiet 60 (confirm t c net rpc signature)
  unfolding confirm
  confirm-IsQuiet signature = poll-IsQuiet 60 signature

  pub wallet_nonce-IsQuiet : (wallet : Bytes) → IsQuiet 1 (wallet_nonce t c net rpc wallet)
  unfolding wallet_nonce bytes_eq
  wallet_nonce-IsQuiet wallet log =
      call_then 0 net rpc _ _ log _ refl λ info after. same-AtMost 0 after

  pub rent_exempt_minimum-IsQuiet : (space : ℕ) → IsQuiet 1 (rent_exempt_minimum t c net rpc space)
  unfolding rent_exempt_minimum bytes_eq
  rent_exempt_minimum-IsQuiet space log =
      call_then 0 net rpc _ _ log _ refl λ rent after. same-AtMost 0 after

  pub balance-IsQuiet : (address : Bytes) → IsQuiet 1 (balance t c net rpc address)
  unfolding balance bytes_eq
  balance-IsQuiet address log =
      call_then 0 net rpc _ _ log _ refl λ reply after. same-AtMost 0 after

  pub fund-IsQuiet :
      (funder : c.Keypair) (to : Bytes) (amount : ℕ)
      → IsQuiet 62 (fund t c net rpc funder to amount)
  unfolding fund bytes_eq
  fund-IsQuiet funder to amount log =
      call_then 61 net rpc (codes "getLatestBlockhash") _ log _ refl λ latest log1.
        pure-AtMost 61 log1 (hash_in t c net (at_name latest (codes "value"))) _ λ blockhash.
          pure-AtMost 61 log1 (funding t c net funder to amount blockhash) _ λ transaction.
            call_then 60 net rpc (codes "sendTransaction") _ log1 _ refl λ sent log2.
              pure-AtMost 60 log2 (as_str sent) _ λ signature.
                proceed-AtMost 60 0 log2 _ _ (confirm-IsQuiet signature log2)
                  λ _ log3. same-AtMost 0 log3
