-- ===== src/Program/Authorization/Verified.antt =====
-- What a successful `verify_enclave_authorization` has checked, and what makes it succeed.
use enclavekit_anchor.Common.{
  ℕ, ◌+◌, ◌<◌, ◌^◌, ℤ, ◌<ℤ◌, ltb_ℤ, ◌==◌, ==_iff, Bytes, true, bytes_eq, bytes_eq→eq, bytes_eq_refl,
  ◌≡◌, refl, arith,
}
use enclavekit_anchor.Encoding.Action.{Action}
use enclavekit_anchor.Encoding.Preimage.{to_bytes}
use enclavekit_anchor.Program.Errors.{Result, ok, ◌>>◌, >>=-eq-ok, require-eq-ok}
use enclavekit_anchor.Program.State.{SmartWallet}
use enclavekit_anchor.Program.Platform.{Sysvars, Platform}
use enclavekit_anchor.Program.Precompile.{SignedPayload, load_secp256r1_payload}
use enclavekit_anchor.Program.Authorization.{
  Authorization, checked_add, initialise, expected_preimage, verify_enclave_authorization,
  require_active_key,
}

ltb_ℤ→lt : (a b : ℤ) → ltb_ℤ a b ≡ true → a <ℤ b
ltb_ℤ→lt a b h = ground arith

lt→ltb_ℤ : (a b : ℤ) → a <ℤ b → ltb_ℤ a b ≡ true
lt→ltb_ℤ a b h = ground arith

pub checked_add-eq-ok : (a b : ℕ) {c : ℕ} → checked_add a b ≡ ok c → (a + b < 2 ^ 64) × (c ≡ a + b)
checked_add-eq-ok a b h = ground arith

last_step :
    (pubkey signer : Bytes) (base wallet' : SmartWallet) (next : ℕ)
    → next ≡ base.nonce + 1
    → ◌≡◌ {A = Result (Bytes × SmartWallet)}
        (ok (pubkey, record base { nonce = next }))
        (ok (signer, wallet'))
    → (signer ≡ pubkey) × (wallet' ≡ record base { nonce = base.nonce + 1 })
last_step pubkey signer base wallet' next e h = ground arith

pub checked_add_fits : (a b : ℕ) → a + b < 2 ^ 64 → checked_add a b ≡ ok (a + b)
checked_add_fits a b h = ground arith

bytes_eq_of_eq : (xs ys : Bytes) → xs ≡ ys → bytes_eq xs ys ≡ true
bytes_eq_of_eq xs ys e = rw e (bytes_eq_refl ys)

module _ (p : Platform) (sys : Sysvars) (wallet : SmartWallet) (auth : Authorization)
    (action : Action) (state_bump vault_bump : ℕ) where
  -- The facts behind a success: the payload read, the wallet that the first action fills or that
  -- was there, and the time.
  pub record IsVerified (signer : Bytes) (wallet' : SmartWallet) : Type 0 where
    pub payload : SignedPayload
    pub base : SmartWallet
    pub now : ℤ
    pub loaded : load_secp256r1_payload sys.previous_instruction ≡ ok payload
    pub initialised : initialise p wallet auth payload state_bump vault_bump ≡ ok base
    pub nonce_matches : auth.nonce ≡ base.nonce
    pub clock : sys.unix_timestamp ≡ ok now
    pub in_time : now <ℤ auth.expires_at
    pub bound : to_bytes p.borsh.serialize (expected_preimage auth action) ≡ payload.message
    pub no_overflow : base.nonce + 1 < 2 ^ 64
    pub by_payload : signer ≡ payload.pubkey
    pub written : wallet' ≡ record base { nonce = base.nonce + 1 }

  pub verify-IsVerified :
      (signer : Bytes) (wallet' : SmartWallet)
      → verify_enclave_authorization p sys wallet auth action state_bump vault_bump
        ≡ ok (signer, wallet')
      → IsVerified signer wallet'
  unfolding verify_enclave_authorization
  verify-IsVerified signer wallet' h =
      let (payload, loaded, h1) = >>=-eq-ok _ _ h in
      let (base, initialised, h2) = >>=-eq-ok _ _ h1 in
      let (nonce, h3) = require-eq-ok _ _ _ h2 in
      let (now, clock, h4) = >>=-eq-ok _ _ h3 in
      let (in_time, h5) = require-eq-ok _ _ _ h4 in
      let (bound, h6) = require-eq-ok _ _ _ h5 in
      let (next, added, h7) = >>=-eq-ok _ _ h6 in
      let (fits, sum) = checked_add-eq-ok base.nonce 1 added in
      record {
        payload = payload;
        base = base;
        now = now;
        loaded = loaded;
        initialised = initialised;
        nonce_matches = (==_iff _ _).0 nonce;
        clock = clock;
        in_time = ltb_ℤ→lt now auth.expires_at in_time;
        bound = bytes_eq→eq _ _ bound;
        no_overflow = fits;
        by_payload = (last_step payload.pubkey signer base wallet' next sum h7).0;
        written = (last_step payload.pubkey signer base wallet' next sum h7).1;
      }

  pub IsVerified-verify :
      {signer : Bytes} {wallet' : SmartWallet}
      → IsVerified signer wallet'
      → verify_enclave_authorization p sys wallet auth action state_bump vault_bump
        ≡ ok (signer, wallet')
  unfolding verify_enclave_authorization
  IsVerified-verify {signer} {wallet'} v =
      let nonce : (auth.nonce == v.base.nonce) ≡ true = (==_iff _ _).1 v.nonce_matches in
      let time : ltb_ℤ v.now auth.expires_at ≡ true = lt→ltb_ℤ v.now auth.expires_at v.in_time in
      let bound = bytes_eq_of_eq _ _ v.bound in
      let next = checked_add_fits v.base.nonce 1 v.no_overflow in
      rw v.loaded (
        rw v.initialised (
          rw nonce (rw v.clock (rw time (rw bound (rw next (rw (v.by_payload, v.written) refl)))))))

-- A run that goes on after `require_active_key` was signed by the active key.
pub require_active_key_ok {ℓ μ} :
    {B : Type ℓ} {C : Type μ} (wallet : SmartWallet) (signer : Bytes) (k : Result B) {r : B}
    → (require_active_key wallet signer >> k) ≡ ok r
    → (signer ≡ wallet.active_key → k ≡ ok r → C)
    → C
unfolding require_active_key
require_active_key_ok wallet signer k h use_parts =
    let (same, rest) = require-eq-ok _ _ k h in use_parts (bytes_eq→eq _ _ same) rest

pub require_active_key-accepts {ℓ} :
    {B : Type ℓ} (wallet : SmartWallet) (signer : Bytes) (k : Result B)
    → signer ≡ wallet.active_key
    → (require_active_key wallet signer >> k) ≡ k
unfolding require_active_key
require_active_key-accepts wallet signer k e = rw (bytes_eq_of_eq signer wallet.active_key e)
