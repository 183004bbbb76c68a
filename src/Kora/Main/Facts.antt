-- ===== src/Kora/Main/Facts.antt =====
-- What a preparation that succeeds has settled.
use enclavekit_anchor.Common.{ℕ, ◌+◌, ℤ, ◌+ℤ◌, Bytes, ◌≡◌, refl, arith}
use mathlib.Core.Option.{Option, none, some, some-injective}
use enclavekit_anchor.Vectors.Text.{codes, array, end_items}
use enclavekit_anchor.Vectors.Tools.{Tools}
use enclavekit_anchor.Vectors.Key.{wallet_id}
use enclavekit_anchor.Vectors.Instructions.{wallet_address, vault_address}
use enclavekit_anchor.Kora.Crates.{Crates}
use enclavekit_anchor.Kora.Plan.{lamports, transaction_fee, nonce_or_zero, fees, top_up}
use enclavekit_anchor.Kora.Seed.{enclave_key}
use enclavekit_anchor.Kora.Rpc.{Log, Run, proceed, call}
use enclavekit_anchor.Kora.Calls.{wallet_nonce, balance, hash_in}
use enclavekit_anchor.Kora.Main.{
  authorization_ttl, expiry, Machine, kora_url, rpc_url, Prepared, funder, relayer_in, asked_rent,
  funded_by, unsigned_transaction, prepare,
}

-- A run that succeeds did its first part, and then the rest.
pub some_then {ℓ κ μ} :
    {A : Type ℓ} {B : Type κ} {C : Type μ} (r : Option A × Log) (next : A → Run B) {b : B}
    → (proceed r next).0 ≡ some b
    → ((a : A) (after : Log) → r.0 ≡ some a → (next a after).0 ≡ some b → C)
    → C
some_then (none, log) next h use_parts = cc
some_then (some a, log) next h use_parts = use_parts a log refl h

fees-eq-some : (rent : ℕ) (f : ℕ × ℕ) → fees rent ≡ some f → f.0 ≡ rent + transaction_fee
unfolding fees
fees-eq-some rent f h = ground arith

expiry-eq-some : (now at : ℤ) → expiry now ≡ some at → at ≡ now +ℤ authorization_ttl
expiry-eq-some now at h = ground arith

module _ (t : Tools) (c : Crates t) (m : Machine) where
  pub record IsPrepared (d : Prepared t c m) : Type 0 where
    pub mine : d.request.wallet_id ≡ wallet_id t d.key
    pub drawn : d.request.to ≡ m.drawn
    pub amount : d.request.lamports ≡ lamports
    pub nonce : d.request.nonce ≡ nonce_or_zero d.read
    pub cap : d.request.max_relayer_fee ≡ d.request.relayer_fee
    pub rent : ℕ
    pub fee : d.request.relayer_fee ≡ rent + transaction_fee
    pub no_rent : (n : ℕ) → d.read ≡ some n → rent ≡ 0
    pub read_at : Log
    pub now : ℤ
    pub clock : m.clock read_at ≡ some now
    pub expires : d.request.expires_at ≡ now +ℤ authorization_ttl
    pub blockhash : Bytes
    pub built : d.transaction ≡ unsigned_transaction t c m d.request d.key d.relayer blockhash

  asked_rent-eq-some :
      (read : Option ℕ) (log : Log) (rent : ℕ)
      → (asked_rent t c m read log).0 ≡ some rent
      → (n : ℕ) → read ≡ some n
      → rent ≡ 0
  unfolding asked_rent
  asked_rent-eq-some none log rent h n e = cc
  asked_rent-eq-some (some k) log rent h n e = ground arith

  from_built : (built d : Prepared t c m) → built ≡ d → IsPrepared built → IsPrepared d
  from_built built d e h = rw e at h

  pub prepare-IsPrepared :
      (log : Log) (d : Prepared t c m) → (prepare t c m log).0 ≡ some d → IsPrepared d
  unfolding prepare
  prepare-IsPrepared log d h =
      some_then (funder t c m, log) _ h
        λ payer log1 _ h.
          some_then (enclave_key t (m.env (codes "ENCLAVE_SEED")) m.random, log1) _ h
            λ key log2 _ h.
              some_then (call m.net (kora_url m) (codes "getPayerSigner") (array end_items) log2) _
                h
                λ signer log3 _ h.
                  some_then (relayer_in t c m signer, log3) _ h
                    λ relayer log4 _ h.
                      some_then
                        (wallet_nonce t c m.net (rpc_url m) (wallet_address t (wallet_id t key))
                          log4)
                        _ h
                        λ read log5 _ h.
                          some_then (asked_rent t c m read log5) _ h λ rent log6 rented h.
                            some_then (fees rent, log6) _ h
                              λ planned log7 fee h.
                                some_then
                                  (balance t c m.net (rpc_url m) (vault_address t (wallet_id t key))
                                    log7)
                                  _ h
                                  λ held log8 _ h.
                                    some_then
                                      (funded_by t c m payer (vault_address t (wallet_id t key))
                                        (top_up held planned.1) log8)
                                      _ h
                                      λ _ log9 _ h.
                                        some_then (m.clock log9, log9) _ h
                                          λ now log10 clock h.
                                            some_then (expiry now, log10) _ h
                                              λ expires_at log11 expires h.
                                                some_then
                                                  (call m.net (kora_url m) (codes "getBlockhash")
                                                    (array end_items) log11)
                                                  _ h
                                                  λ latest log12 _ h.
                                                    some_then (hash_in t c m.net latest, log12) _ h
                                                      λ blockhash log13 _ h.
                                                        from_built _ d (some-injective _ _ h)
                                                          (record {
                                                            mine = refl;
                                                            drawn = refl;
                                                            amount = refl;
                                                            nonce = refl;
                                                            cap = refl;
                                                            rent = rent;
                                                            fee = fees-eq-some rent planned fee;
                                                            no_rent =
                                                            asked_rent-eq-some read log5 rent
                                                            rented;
                                                            read_at = log9;
                                                            now = now;
                                                            clock = clock;
                                                            expires =
                                                            expiry-eq-some now expires_at expires;
                                                            blockhash = blockhash;
                                                            built = refl;
                                                          })
