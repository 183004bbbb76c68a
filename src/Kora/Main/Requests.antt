-- ===== src/Kora/Main/Requests.antt =====
-- What a whole run asks of the network, and of the relayer.
use enclavekit_anchor.Common.{ℕ, Bytes, bytes_eq, ◌∷◌, ◌≡◌, ◌⊎◌, refl}
use mathlib.Core.Option.{Option, none, some}
use enclavekit_anchor.Vectors.Text.{codes, Value, text, object, end_members, member}
use enclavekit_anchor.Vectors.Tools.{Tools}
use enclavekit_anchor.Kora.Crates.{Crates}
use enclavekit_anchor.Kora.Calls.{hash_in, wallet_nonce, balance}
use enclavekit_anchor.Vectors.Key.{wallet_id}
use enclavekit_anchor.Vectors.Instructions.{wallet_address, vault_address}
use enclavekit_anchor.Kora.Seed.{enclave_key}
use enclavekit_anchor.Kora.Plan.{fees, top_up}
use enclavekit_anchor.Kora.Rpc.{Log}
use enclavekit_anchor.Kora.Rpc.Quiet.{
  relays, IsQuiet, proceed-AtMost, same-AtMost, pure-AtMost, call_then,
}
use enclavekit_anchor.Kora.Calls.Requests.{
  wallet_nonce-IsQuiet, rent_exempt_minimum-IsQuiet, balance-IsQuiet, fund-IsQuiet,
}
use enclavekit_anchor.Kora.Main.{
  Machine, expiry, funder, relayer_in, kora_url, rpc_url, Prepared, asked_rent, funded_by, prepare,
}

module _ (t : Tools) (c : Crates t) (m : Machine) where
  asked_rent-IsQuiet : (read : Option ℕ) → IsQuiet 1 (asked_rent t c m read)
  unfolding asked_rent
  asked_rent-IsQuiet (some nonce) log = same-AtMost 1 log
  asked_rent-IsQuiet none log = rent_exempt_minimum-IsQuiet t c m.net (rpc_url m) _ log

  funded_by-IsQuiet :
      (payer : c.Keypair) (vault : Bytes) (amount : Option ℕ)
      → IsQuiet 62 (funded_by t c m payer vault amount)
  unfolding funded_by
  funded_by-IsQuiet payer vault none log = same-AtMost 62 log
  funded_by-IsQuiet payer vault (some amount) log =
      proceed-AtMost 62 0 log _ _ (fund-IsQuiet t c m.net (rpc_url m) payer vault amount log)
        λ _ after. same-AtMost 0 after

  pub prepare-IsQuiet : IsQuiet 67 (prepare t c m)
  unfolding prepare bytes_eq
  prepare-IsQuiet log = pure-AtMost 67 log (funder t c m) _ λ payer.
      pure-AtMost 67 log (enclave_key t (m.env (codes "ENCLAVE_SEED")) m.random) _ λ key.
        call_then 66 m.net (kora_url m) (codes "getPayerSigner") _ log _ refl λ signer log1.
          pure-AtMost 66 log1 (relayer_in t c m signer) _ λ relayer.
            proceed-AtMost 1 65 log1
              (wallet_nonce t c m.net (rpc_url m) (wallet_address t (wallet_id t key)) log1) _
              (wallet_nonce-IsQuiet t c m.net (rpc_url m) _ log1)
              λ read log2.
                proceed-AtMost 1 64 log2 (asked_rent t c m read log2) _
                  (asked_rent-IsQuiet read log2)
                  λ rent log3. pure-AtMost 64 log3 (fees rent) _ λ planned.
                    proceed-AtMost 1 63 log3
                      (balance t c m.net (rpc_url m) (vault_address t (wallet_id t key)) log3) _
                      (balance-IsQuiet t c m.net (rpc_url m) _ log3)
                      λ held log4.
                        proceed-AtMost 62 1 log4
                          (funded_by t c m payer (vault_address t (wallet_id t key))
                            (top_up held planned.1) log4)
                          _ (funded_by-IsQuiet payer _ _ log4)
                          λ _ log5. pure-AtMost 1 log5 (m.clock log5) _ λ now.
                            pure-AtMost 1 log5 (expiry now) _ λ expires_at.
                              call_then 0 m.net (kora_url m) (codes "getBlockhash") _ log5 _ refl
                                λ latest log6.
                                  pure-AtMost 0 log6 (hash_in t c m.net latest) _
                                    λ blockhash. same-AtMost 0 log6

  -- What the relayer is asked to sign and send.
  abbrev pub relayed : Prepared t c m → Value
  relayed d = object (member (codes "transaction") (text d.transaction) end_members)

  -- Nothing more was asked of the relayer, and then the run has failed; or this was.
  abbrev pub IsRelayedOnce : Option (Unit {0}) → Log → Log → Value → Type 0
  IsRelayedOnce result log after asked =
      ((result ≡ none) × (relays after ≡ relays log)) ⊎ (relays after ≡ asked ∷ relays log)

  -- What the relayer was asked in a run, by what the run had prepared.
  abbrev pub IsRelayed : Option (Prepared t c m) → Option (Unit {0}) → Log → Log → Type 0
  IsRelayed none result log after = (result ≡ none) × (relays after ≡ relays log)
  IsRelayed (some d) result log after = IsRelayedOnce result log after (relayed d)
