-- ===== src/Kora/Main.antt =====
-- `main`: steps 1 to 4, which prepare the transaction, and steps 5 and 6, which have it signed and sent.
pub mod Delivered
pub mod Facts
pub mod Requests
use enclavekit_anchor.Common.{
  ℕ, ◌+◌, ℤ, pos, ◌+ℤ◌, leb_ℤ, i64_max, Bytes, List, [], ◌∷◌, ◌++◌, length, if◌then◌else◌,
}
use mathlib.Core.Option.{Option, none, some}
use enclavekit_anchor.Vectors.Text.{
  Text, codes, Value, text, array, object, end_items, end_members, member,
}
use enclavekit_anchor.Vectors.Tools.{Tools}
use enclavekit_anchor.Vectors.Key.{EnclaveKey, wallet_id}
use enclavekit_anchor.Vectors.Instructions.{wallet_address, vault_address}
use enclavekit_anchor.Vectors.Transaction.{empty_signature}
use enclavekit_anchor.Kora.Calls.{
  wallet_nonce, rent_exempt_minimum, balance, fund, hash_in, confirm,
}
use enclavekit_anchor.Kora.Crates.{Crates}
use enclavekit_anchor.Kora.Json.{str_field}
use enclavekit_anchor.Kora.Plan.{
  lamports, transaction_fee, vault_reserve, nonce_or_zero, fees, top_up,
}
use enclavekit_anchor.Kora.Rpc.{Log, Net, Run, ◌>>=◌, pure_of, and_then, call}
use enclavekit_anchor.Kora.Seed.{enclave_key}
use enclavekit_anchor.Kora.TransferRequest.{TransferSolRequest, signed_pair}

abbrev pub authorization_ttl : ℤ
authorization_ttl = pos 120

abbrev pub or_text : Option Text → Text → Text
or_text none default = default
or_text (some value) default = value

-- `now + AUTHORIZATION_TTL` in the dev profile, where an overflow is a panic.
abbrev pub expiry : ℤ → Option ℤ
expiry now =
    if leb_ℤ (now +ℤ authorization_ttl) i64_max then some (now +ℤ authorization_ttl) else none

-- The machine that the example runs on: its variables, its random bytes and the address drawn for the
-- destination, its clock and its network. What the clock shows may depend on the requests before.
pub record Machine : Type 0 where
  pub env : Text → Option Text
  pub random : Option Bytes
  pub drawn : Bytes
  pub clock : Log → Option ℤ
  pub net : Net

-- `env_or`
unfoldable pub env_or : Machine → Text → Text → Text
env_or m name default = or_text (m.env name) default

abbrev pub kora_url : Machine → Text
kora_url m = env_or m (codes "KORA_URL") (codes "http://127.0.0.1:8080")

abbrev pub rpc_url : Machine → Text
rpc_url m = env_or m (codes "RPC_URL") (codes "https://api.devnet.solana.com")

module _ (t : Tools) (c : Crates t) (m : Machine) where
  -- What step 5 needs of the steps before.
  pub record Prepared : Type 0 where
    pub key : EnclaveKey t
    pub relayer : Bytes
    pub read : Option ℕ
    pub request : TransferSolRequest
    pub transaction : Text

  unfoldable pub funder : Option c.Keypair
  unfolding env_or
  funder = and_then (m.env (codes "HOME")) λ home.
      c.read_keypair_file
        (env_or m (codes "FUNDER_KEYPAIR") (home ++ codes "/.config/solana/wallet-a.json"))

  unfoldable pub relayer_in : Value → Option Bytes
  unfolding str_field
  relayer_in signer =
      and_then (str_field signer (codes "signer_address")) λ address. c.from_base58 address

  -- The `match` on the nonce that was read.
  unfoldable pub asked_rent : Option ℕ → Run ℕ
  unfolding rent_exempt_minimum env_or
  asked_rent (some nonce) = pure_of (some 0)
  asked_rent none =
      rent_exempt_minimum t c m.net (rpc_url m) (length t.account.discriminator + c.init_space)

  -- The call of `fund`, where there is one.
  unfoldable pub funded_by : c.Keypair → Bytes → Option ℕ → Run (Unit {0})
  unfolding fund env_or
  funded_by payer vault none = pure_of (some tt)
  funded_by payer vault (some amount) = do
    _ ← fund t c m.net (rpc_url m) payer vault amount
    pure_of (some tt)

  unfoldable pub unsigned_transaction : TransferSolRequest → EnclaveKey t → Bytes → Bytes → Text
  unfolding signed_pair
  unsigned_transaction request key relayer blockhash = t.to_base64 (
      t.transaction_bytes (empty_signature ∷ [])
        (t.new_with_blockhash (signed_pair t request key relayer) relayer blockhash))

  unfoldable pub prepare : Run Prepared
  unfolding funder enclave_key call relayer_in wallet_nonce asked_rent fees balance funded_by
      hash_in unsigned_transaction env_or wallet_address vault_address wallet_id
  prepare = do
    payer ← pure_of funder
    key ← pure_of (enclave_key t (m.env (codes "ENCLAVE_SEED")) m.random)
    let id = wallet_id t key
    let vault = vault_address t id
    signer ← call m.net (kora_url m) (codes "getPayerSigner") (array end_items)
    relayer ← pure_of (relayer_in signer)
    read ← wallet_nonce t c m.net (rpc_url m) (wallet_address t id)
    rent ← asked_rent read
    (relayer_fee, needed) ← pure_of (fees rent)
    held ← balance t c m.net (rpc_url m) vault
    _ ← funded_by payer vault (top_up held needed)
    now ← λ log. (m.clock log, log)
    expires_at ← pure_of (expiry now)
    let request : TransferSolRequest = record {
      wallet_id = id;
      to = m.drawn;
      lamports = lamports;
      nonce = nonce_or_zero read;
      expires_at = expires_at;
      max_relayer_fee = relayer_fee;
      relayer_fee = relayer_fee;
    }
    latest ← call m.net (kora_url m) (codes "getBlockhash") (array end_items)
    blockhash ← pure_of (hash_in t c m.net latest)
    pure_of (
        some (record {
          key = key;
          relayer = relayer;
          read = read;
          request = request;
          transaction = unsigned_transaction request key relayer blockhash;
        }))

  unfoldable pub submit : Prepared → Run (Unit {0})
  unfolding balance call str_field confirm env_or
  submit d = do
    relayer_before ← balance t c m.net (rpc_url m) d.relayer
    sent ←
        call m.net (kora_url m) (codes "signAndSendTransaction")
          (object (member (codes "transaction") (text d.transaction) end_members))
    signature ← pure_of (str_field sent (codes "signature"))
    _ ← confirm t c m.net (rpc_url m) signature
    relayer_after ← balance t c m.net (rpc_url m) d.relayer
    received ← balance t c m.net (rpc_url m) d.request.to
    pure_of (some tt)

  unfoldable pub main : Run (Unit {0})
  unfolding prepare submit
  main = do d ← prepare; submit d
