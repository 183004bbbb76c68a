-- ===== src/Program/Authorization.antt =====
-- programs/enclavekit/src/authorization.rs: the check of a signed action, and payments from the
-- vault.
pub mod Payments
pub mod Verified
pub mod Accepted
use enclavekit_anchor.Common.{
  ℕ, ◌+◌, ◌^◌, min, ℤ, Bytes, false, List, [], ◌∷◌, replicate, bytes_eq, ltb, ltb_ℤ, ◌==◌,
  if◌then◌else◌,
}
use enclavekit_anchor.Encoding.Constants.{vault_seed, max_guardians}
use enclavekit_anchor.Encoding.Action.{Action}
use enclavekit_anchor.Encoding.Preimage.{Preimage, to_bytes}
use enclavekit_anchor.Program.Constants.{program_id}
use enclavekit_anchor.Program.Errors.{
  Result, ok, err, arithmetic_overflow, ◌>>=◌, ◌>>◌, require, wallet_id_mismatch, nonce_mismatch,
  authorization_expired, preimage_mismatch, key_mismatch,
}
use enclavekit_anchor.Program.State.{SmartWallet, is_new, empty_guardian_slot, empty_rotation_slot}
use enclavekit_anchor.Program.Platform.{Sysvars, Platform, Bank}
use enclavekit_anchor.Program.Precompile.{SignedPayload, load_secp256r1_payload}

pub record Authorization : Type 0 where
  pub wallet_id : Bytes
  pub nonce : ℕ
  pub expires_at : ℤ
  pub max_relayer_fee : ℕ

-- `u64::checked_add(..).ok_or(ProgramError::ArithmeticOverflow)`
abbrev pub checked_add : ℕ → ℕ → Result ℕ
checked_add a b = if ltb (a + b) (2 ^ 64) then ok (a + b) else err arithmetic_overflow

-- The `SmartWallet` literal of the first action.
unfoldable pub first_wallet : Authorization → Bytes → ℕ → ℕ → SmartWallet
first_wallet auth pubkey state_bump vault_bump = record {
  wallet_id = auth.wallet_id;
  active_key = pubkey;
  nonce = 0;
  attested = false;
  guardians = replicate max_guardians empty_guardian_slot;
  rotation = empty_rotation_slot;
  state_bump = state_bump;
  vault_bump = vault_bump;
}

-- The block `if wallet.is_new() { .. }`.
unfoldable pub initialise :
    Platform → SmartWallet → Authorization → SignedPayload → ℕ → ℕ → Result SmartWallet
unfolding is_new first_wallet
initialise p wallet auth payload state_bump vault_bump =
    if is_new wallet
    then (do
      require (bytes_eq (p.sha256 payload.pubkey) auth.wallet_id) wallet_id_mismatch
      ok (first_wallet auth payload.pubkey state_bump vault_bump))
    else ok wallet

-- The preimage that the signed message must equal.
unfoldable pub expected_preimage : Authorization → Action → Preimage
expected_preimage auth action = record {
  program_id = program_id;
  wallet_id = auth.wallet_id;
  nonce = auth.nonce;
  expires_at = auth.expires_at;
  max_relayer_fee = auth.max_relayer_fee;
  action = action;
}

-- The signer's key, and the wallet as written: `wallet` is `&mut`.
unfoldable pub verify_enclave_authorization :
    Platform → Sysvars → SmartWallet → Authorization → Action → ℕ → ℕ → Result (Bytes × SmartWallet)
unfolding initialise expected_preimage
verify_enclave_authorization p sys wallet auth action state_bump vault_bump = do
  payload ← load_secp256r1_payload sys.previous_instruction
  wallet ← initialise p wallet auth payload state_bump vault_bump
  require (auth.nonce == wallet.nonce) nonce_mismatch
  now ← sys.unix_timestamp
  require (ltb_ℤ now auth.expires_at) authorization_expired
  let expected = to_bytes p.borsh.serialize (expected_preimage auth action)
  require (bytes_eq expected payload.message) preimage_mismatch
  nonce ← checked_add wallet.nonce 1
  ok (payload.pubkey, record wallet { nonce = nonce })

unfoldable pub require_active_key : SmartWallet → Bytes → Result (Unit {0})
require_active_key wallet signer = require (bytes_eq signer wallet.active_key) key_mismatch

-- The seeds that sign for the vault.
abbrev pub vault_seeds : SmartWallet → List Bytes
vault_seeds wallet = vault_seed ∷ wallet.wallet_id ∷ (wallet.vault_bump ∷ []) ∷ []

unfoldable pub transfer_from_vault : Platform → SmartWallet → Bytes → Bytes → ℕ → Bank → Result Bank
transfer_from_vault p wallet vault to lamports bank =
    p.transfer (vault_seeds wallet) vault to lamports bank

-- What it paid, and the lamports after it.
unfoldable pub refund_relayer :
    Platform → SmartWallet → Bytes → Bytes → ℕ → ℕ → Bank → Result (ℕ × Bank)
unfolding transfer_from_vault
refund_relayer p wallet vault relayer relayer_fee max_relayer_fee bank = do
  let refund = min relayer_fee max_relayer_fee
  bank ← transfer_from_vault p wallet vault relayer refund bank
  ok (refund, bank)
