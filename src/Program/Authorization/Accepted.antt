-- ===== src/Program/Authorization/Accepted.antt =====
-- Consequences of an accepted authorization: what it binds, that it cannot be used again, what it
-- writes; and the error of each check that fails.
use enclavekit_anchor.Common.{
  ℕ, ◌+◌, ◌≤◌, Bytes, true, false, bytes_eq, bytes_eq→eq, IsArray, IsU64, IsI64, ◌≡◌, ◌≢◌, sym, ap,
  ◌∙◌, arith,
}
use enclavekit_anchor.Encoding.Action.{Action, IsAction}
use enclavekit_anchor.Encoding.Preimage.{Preimage, IsPreimage}
use enclavekit_anchor.Encoding.Preimage.Binding.{to_bytes_injective}
use enclavekit_anchor.Program.Errors.{ok, require, ◌>>◌, require-eq-ok, wallet_id_mismatch}
use enclavekit_anchor.Program.State.{SmartWallet, is_new}
use enclavekit_anchor.Program.Platform.{Sysvars, Platform}
use enclavekit_anchor.Program.Precompile.{SignedPayload, load_secp256r1_payload}
use enclavekit_anchor.Program.Authorization.{
  Authorization, first_wallet, initialise, expected_preimage, verify_enclave_authorization,
}
use enclavekit_anchor.Program.Authorization.Verified.{verify-IsVerified}

-- The sizes that the Rust types fix.
pub record IsAuthorization (auth : Authorization) : Type 0 where
  pub wallet_id_array : IsArray 32 auth.wallet_id
  pub nonce_u64 : IsU64 auth.nonce
  pub expires_at_i64 : IsI64 auth.expires_at
  pub max_relayer_fee_u64 : IsU64 auth.max_relayer_fee

expected_preimage-IsPreimage :
    (auth : Authorization) (action : Action)
    → IsAuthorization auth
    → IsAction action
    → IsPreimage (expected_preimage auth action)
unfolding expected_preimage
expected_preimage-IsPreimage auth action h ha = record {
  program_id_array = omega arith;
  wallet_id_array = h.wallet_id_array;
  nonce_u64 = h.nonce_u64;
  expires_at_i64 = h.expires_at_i64;
  max_relayer_fee_u64 = h.max_relayer_fee_u64;
  action_fits = ha;
}

expected_preimage_injective :
    (auth auth' : Authorization) (action action' : Action)
    → expected_preimage auth action ≡ expected_preimage auth' action'
    → (auth ≡ auth') × (action ≡ action')
unfolding expected_preimage
expected_preimage_injective auth auth' action action' e = (
  λ i. record {
    wallet_id = (e i).wallet_id;
    nonce = (e i).nonce;
    expires_at = (e i).expires_at;
    max_relayer_fee = (e i).max_relayer_fee;
  },
  ap (λ (t : Preimage). t.action) e,
)

module _ (p : Platform) (wallet : SmartWallet) (auth : Authorization) (payload : SignedPayload)
    (sb vb : ℕ) {base : SmartWallet}
    (filled : initialise p wallet auth payload sb vb ≡ ok base) where
  initialise_used : is_new wallet ≡ false → wallet ≡ base
  unfolding initialise
  initialise_used used = cc (rw used at filled)

  initialise_new :
      is_new wallet ≡ true
      → (p.sha256 payload.pubkey ≡ auth.wallet_id) × (base ≡ first_wallet auth payload.pubkey sb vb)
  unfolding initialise
  initialise_new new =
      let opened : (require (bytes_eq (p.sha256 payload.pubkey) auth.wallet_id) wallet_id_mismatch
            >> ok (first_wallet auth payload.pubkey sb vb))
          ≡ ok base =
        rw new at filled in
      let (hashed, same) = require-eq-ok _ _ _ opened in (bytes_eq→eq _ _ hashed, cc)

module _ (p : Platform) where
  -- Two authorizations accepted on the strength of the same precompile instruction, by any wallets
  -- and at any times, are the same authorization for the same action: what was signed fixes the
  -- wallet, the nonce, the expiry, the fee cap and every argument of the action.
  pub verify_binds :
      (sys sys' : Sysvars) (wallet wallet' : SmartWallet) (auth auth' : Authorization)
      (action action' : Action) (sb vb sb' vb' : ℕ) {r r' : Bytes × SmartWallet}
      → IsAuthorization auth
      → IsAuthorization auth'
      → IsAction action
      → IsAction action'
      → sys.previous_instruction ≡ sys'.previous_instruction
      → verify_enclave_authorization p sys wallet auth action sb vb ≡ ok r
      → verify_enclave_authorization p sys' wallet' auth' action' sb' vb' ≡ ok r'
      → (auth ≡ auth') × (action ≡ action')
  verify_binds sys sys' wallet wallet' auth auth' action action' sb vb sb' vb' {r} {r'} h h' ha ha'
        same ok1 ok2 =
      let v = verify-IsVerified p sys wallet auth action sb vb r.0 r.1 ok1 in
      let v' = verify-IsVerified p sys' wallet' auth' action' sb' vb' r'.0 r'.1 ok2 in
      let payloads : v.payload ≡ v'.payload =
        cc (v.loaded, v'.loaded, ap load_secp256r1_payload same) in
      expected_preimage_injective auth auth' action action' (
        to_bytes_injective p.borsh (expected_preimage auth action) (expected_preimage auth' action')
          (expected_preimage-IsPreimage auth action h ha)
          (expected_preimage-IsPreimage auth' action' h' ha')
          (v.bound ∙ ap (λ (t : SignedPayload). t.message) payloads ∙ sym v'.bound))

  -- A wallet in use is left as it was but for its nonce, which was the signed one and grows by one.
  pub verify_in_use :
      (sys : Sysvars) (wallet : SmartWallet) (auth : Authorization) (action : Action) (sb vb : ℕ)
      {signer : Bytes} {wallet' : SmartWallet}
      → is_new wallet ≡ false
      → verify_enclave_authorization p sys wallet auth action sb vb ≡ ok (signer, wallet')
      → (auth.nonce ≡ wallet.nonce) × (wallet' ≡ record wallet { nonce = wallet.nonce + 1 })
  verify_in_use sys wallet auth action sb vb {signer} {wallet'} used h =
      let v = verify-IsVerified p sys wallet auth action sb vb signer wallet' h in
      let same : wallet ≡ v.base =
        initialise_used p wallet auth v.payload sb vb v.initialised used in
      (
        v.nonce_matches ∙ ap (λ (w : SmartWallet). w.nonce) (sym same),
        v.written ∙ ap (λ (w : SmartWallet). record w { nonce = w.nonce + 1 }) (sym same),
      )

  -- A state account that was just made becomes the wallet of the key that signed: the id is the
  -- key's hash, the signed nonce is 0, and nothing else is taken from the caller.
  pub verify_first_use :
      (sys : Sysvars) (wallet : SmartWallet) (auth : Authorization) (action : Action) (sb vb : ℕ)
      {signer : Bytes} {wallet' : SmartWallet}
      → is_new wallet ≡ true
      → verify_enclave_authorization p sys wallet auth action sb vb ≡ ok (signer, wallet')
      → (p.sha256 signer ≡ auth.wallet_id)
        × (auth.nonce ≡ 0)
        × (wallet' ≡ record (first_wallet auth signer sb vb) { nonce = 1 })
  unfolding first_wallet
  verify_first_use sys wallet auth action sb vb {signer} {wallet'} new h =
      let v = verify-IsVerified p sys wallet auth action sb vb signer wallet' h in
      let (hashed, base) = initialise_new p wallet auth v.payload sb vb v.initialised new in
      (
        rw v.by_payload hashed,
        v.nonce_matches ∙ ap (λ (w : SmartWallet). w.nonce) base,
        v.written
            ∙ ap (λ (w : SmartWallet). record w { nonce = w.nonce + 1 }) base
            ∙ ap (λ (k : Bytes). record (first_wallet auth k sb vb) { nonce = 1 })
                (sym v.by_payload),
      )

  -- An accepted authorization is refused by the same wallet ever after: by any wallet in use whose
  -- nonce has not fallen since.
  pub verify_refuses_replay :
      (sys sys' : Sysvars) (wallet later : SmartWallet) (auth : Authorization)
      (action action' : Action) (sb vb sb' vb' : ℕ) {signer : Bytes} {wallet' : SmartWallet}
      → verify_enclave_authorization p sys wallet auth action sb vb ≡ ok (signer, wallet')
      → is_new later ≡ false
      → wallet'.nonce ≤ later.nonce
      → (r : Bytes × SmartWallet)
      → verify_enclave_authorization p sys' later auth action' sb' vb' ≢ ok r
  verify_refuses_replay sys sys' wallet later auth action action' sb vb sb' vb' {signer} {wallet'} h
        used grown r again =
      let v = verify-IsVerified p sys wallet auth action sb vb signer wallet' h in
      let (stale, _) = verify_in_use sys' later auth action' sb' vb' used again in
      absurd (omega (arith, stale, v.nonce_matches, ap (λ (w : SmartWallet). w.nonce) v.written))
