-- ===== src/Vectors/Actions/Signed.antt =====
-- The signed bytes of an action, the precompile instruction that carries them, and what the program
-- makes of it.
use enclavekit_anchor.Common.{
  ℕ, ◌+◌, ◌<◌, ℤ, ◌<ℤ◌, Bytes, false, [], ◌++◌, length, i64_bits, to_le_bytes, length-to_le_bytes,
  length-append, ◌≡◌, refl, sym, ap, arith,
}
use enclavekit_anchor.Encoding.Action.{Action, IsAction}
use enclavekit_anchor.Encoding.Borsh.{Borsh}
use enclavekit_anchor.Encoding.Preimage.{Preimage, to_bytes, domain_tag}
use enclavekit_anchor.Encoding.Wallet
use enclavekit_anchor.Program.Constants.{secp256r1_program_id}
use enclavekit_anchor.Program.Errors.{ok}
use enclavekit_anchor.Program.State.{SmartWallet, is_new}
use enclavekit_anchor.Program.Platform.{Sysvars, Platform}
use enclavekit_anchor.Program.Precompile.Layout.{precompile_data, load_secp256r1_payload_accepts}
use enclavekit_anchor.Program.Authorization.{
  Authorization, initialise, expected_preimage, verify_enclave_authorization,
}
use enclavekit_anchor.Program.Authorization.Verified.{IsVerified-verify}
use enclavekit_anchor.Vectors.Inputs
use enclavekit_anchor.Vectors.Tools.{Tools}
use enclavekit_anchor.Vectors.Key.{EnclaveKey, compressed_pubkey, wallet_id}
use enclavekit_anchor.Vectors.Actions.{signed_bytes}

pub length-to_bytes :
    (serialize : Action → Bytes) (p : Preimage)
    → length p.program_id ≡ 32
    → length p.wallet_id ≡ 32
    → length (to_bytes serialize p) ≡ 104 + length (serialize p.action)
unfolding to_bytes
length-to_bytes serialize p hp hw =
    let fee = to_le_bytes 8 p.max_relayer_fee in
    let expiry = to_le_bytes 8 (i64_bits p.expires_at) in
    let nonce = to_le_bytes 8 p.nonce in
    let rest = serialize p.action in
    omega (
      arith,
      hp,
      hw,
      length-append domain_tag
          (p.program_id ++ (p.wallet_id ++ (nonce ++ (expiry ++ (fee ++ rest))))),
      length-append p.program_id (p.wallet_id ++ (nonce ++ (expiry ++ (fee ++ rest)))),
      length-append p.wallet_id (nonce ++ (expiry ++ (fee ++ rest))),
      length-append nonce (expiry ++ (fee ++ rest)),
      length-append expiry (fee ++ rest),
      length-append fee rest,
      length-to_le_bytes 8 p.nonce,
      length-to_le_bytes 8 (i64_bits p.expires_at),
      length-to_le_bytes 8 p.max_relayer_fee,
    )

-- The header that the actions of the vectors share.
abbrev pub header : (t : Tools) → EnclaveKey t → Authorization
header t key = record {
  wallet_id = wallet_id t key;
  nonce = Inputs.nonce;
  expires_at = Inputs.expires_at;
  max_relayer_fee = Inputs.max_relayer_fee;
}

-- The sysvars of a transaction whose precompile instruction has these data.
abbrev pub sysvars_after : Bytes → ℤ → ℕ → Sysvars
sysvars_after data_bytes now rent = record {
  previous_instruction =
      ok (record { program_id = secp256r1_program_id; accounts = []; data_bytes = data_bytes });
  unix_timestamp = ok now;
  rent_minimum = ok rent;
}

module _ (t : Tools) (key : EnclaveKey t) where
  length-signed_bytes :
      (action : Action) → IsAction action → length (signed_bytes t key action) < 65536
  unfolding signed_bytes expected_preimage wallet_id Wallet.wallet_id
  length-signed_bytes action fits = omega (
    arith,
    length-to_bytes t.borsh.serialize (expected_preimage (header t key) action) refl
        (t.length-sha256 (compressed_pubkey t key)),
    t.length-serialize action fits,
  )

  -- The precompile's instruction for a signed action.
  pub signed_instruction :
      (action : Action) (signature : Bytes)
      → IsAction action
      → length signature ≡ 64
      → t.new_secp256r1_instruction_with_signature
          (signed_bytes t key action)
          signature
          (compressed_pubkey t key)
        ≡ record {
          program_id = secp256r1_program_id;
          accounts = [];
          data_bytes =
              precompile_data 0 (compressed_pubkey t key) signature (signed_bytes t key action);
        }
  unfolding compressed_pubkey
  signed_instruction action signature fits hs =
      t.precompile_layout _ signature _ hs (t.to_sec1_point_array key).0
        (length-signed_bytes action fits)

module _ (t : Tools) (p : Platform) (key : EnclaveKey t) (w : SmartWallet) (now : ℤ)
    (rent sb vb : ℕ) (same_borsh : p.borsh ≡ t.borsh) (used : is_new w ≡ false)
    (at_nonce : w.nonce ≡ Inputs.nonce) (in_time : now <ℤ Inputs.expires_at) where
  same_bytes :
      (action : Action)
      → to_bytes p.borsh.serialize (expected_preimage (header t key) action)
        ≡ signed_bytes t key action
  unfolding signed_bytes expected_preimage
  same_bytes action =
      ap (λ (b : Borsh). to_bytes b.serialize (expected_preimage (header t key) action)) same_borsh

  pub verified :
      (action : Action) (signature : Bytes)
      → IsAction action
      → length signature ≡ 64
      → verify_enclave_authorization p
          (sysvars_after
            (precompile_data 0 (compressed_pubkey t key) signature (signed_bytes t key action))
            now
            rent)
          w
          (header t key)
          action
          sb
          vb
        ≡ ok (compressed_pubkey t key, record w { nonce = Inputs.nonce + 1 })
  unfolding compressed_pubkey initialise
  verified action signature fits hs = IsVerified-verify p _ w (header t key) action sb vb (record {
    payload = record { pubkey = compressed_pubkey t key; message = signed_bytes t key action };
    base = w;
    now = now;
    loaded =
        load_secp256r1_payload_accepts 0 (compressed_pubkey t key) signature _
          (t.to_sec1_point_array key).0 hs (length-signed_bytes t key action fits);
    initialised = rw used refl;
    nonce_matches = sym at_nonce;
    clock = refl;
    in_time = in_time;
    bound = same_bytes action;
    no_overflow = omega (arith, at_nonce);
    by_payload = refl;
    written = rw at_nonce refl;
  })
