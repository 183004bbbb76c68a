-- ===== src/Kora/TransferRequest/Accepted.antt =====
-- The precompile's instruction of a request, as the program verifies it.
use enclavekit_anchor.Common.{
  ℕ, ◌+◌, ◌<◌, ◌^◌, ℤ, ◌<ℤ◌, bytes_eq_refl, true, false, [], length, ◌≡◌, refl, sym, ap, ◌∙◌, arith,
  if◌then◌else◌,
}
use mathlib.Core.Option.{Option, none, some}
use enclavekit_anchor.Encoding.Action.{IsAction}
use enclavekit_anchor.Encoding.Borsh.{Borsh}
use enclavekit_anchor.Encoding.Preimage.{to_bytes}
use enclavekit_anchor.Encoding.Wallet
use enclavekit_anchor.Program.Constants.{secp256r1_program_id}
use enclavekit_anchor.Program.Errors.{ok}
use enclavekit_anchor.Program.State.{SmartWallet, is_new}
use enclavekit_anchor.Program.Platform.{Platform, Instruction}
use enclavekit_anchor.Program.Precompile.{load_secp256r1_payload}
use enclavekit_anchor.Program.Precompile.Layout.{precompile_data, load_secp256r1_payload_accepts}
use enclavekit_anchor.Program.Authorization.{
  first_wallet, initialise, expected_preimage, verify_enclave_authorization,
}
use enclavekit_anchor.Program.Authorization.Verified.{IsVerified-verify}
use enclavekit_anchor.Vectors.Client.{seen}
use enclavekit_anchor.Vectors.Tools.{Tools}
use enclavekit_anchor.Vectors.Key.{EnclaveKey, compressed_pubkey, wallet_id, sign}
use enclavekit_anchor.Vectors.Actions.Signed.{length-to_bytes}
use enclavekit_anchor.Kora.Plan.{nonce_or_zero}
use enclavekit_anchor.Kora.TransferRequest.{
  TransferSolRequest, authorization, action, preimage, precompile_instruction,
}

-- The account that a nonce was read from: none is an account that the program makes first.
pub data IsReadFrom (w : SmartWallet) : Option ℕ → Type 0 where
  in_use : (n : ℕ) → is_new w ≡ false → w.nonce ≡ n → IsReadFrom w (some n)
  unused : is_new w ≡ true → IsReadFrom w none

module _ (t : Tools) (key : EnclaveKey t) (r : TransferSolRequest) where
  -- The instruction before the program's, as the sysvar shows it.
  abbrev pub shown : Instruction
  shown = seen (precompile_instruction t key (preimage t r))

  length-preimage :
      r.wallet_id ≡ wallet_id t key → IsAction (action r) → length (preimage t r) < 65536
  unfolding preimage authorization action wallet_id Wallet.wallet_id expected_preimage
  length-preimage mine fits = omega (
    arith,
    length-to_bytes t.borsh.serialize (expected_preimage (authorization r) (action r)) refl
        (ap length mine ∙ t.length-sha256 (compressed_pubkey t key)),
    t.length-serialize (action r) fits,
  )

  shown_layout :
      r.wallet_id ≡ wallet_id t key
      → IsAction (action r)
      → shown ≡ record {
        program_id = secp256r1_program_id;
        accounts = [];
        data_bytes =
            precompile_data 0 (compressed_pubkey t key) (sign t key (preimage t r)) (preimage t r);
      }
  unfolding seen precompile_instruction sign compressed_pubkey
  shown_layout mine fits = ap seen (
      t.precompile_layout _ _ _ (t.length-signature_bytes _) (t.to_sec1_point_array key).0
        (length-preimage mine fits))

  shown_loaded :
      r.wallet_id ≡ wallet_id t key
      → IsAction (action r)
      → load_secp256r1_payload (ok shown)
        ≡ ok (record { pubkey = compressed_pubkey t key; message = preimage t r })
  unfolding sign compressed_pubkey
  shown_loaded mine fits =
      ap (λ (ix : Instruction). load_secp256r1_payload (ok ix)) (shown_layout mine fits)
      ∙ load_secp256r1_payload_accepts 0 (compressed_pubkey t key) (sign t key (preimage t r)) _
          (t.to_sec1_point_array key).0 (t.length-signature_bytes _) (length-preimage mine fits)

module _ (t : Tools) (p : Platform) (key : EnclaveKey t) (r : TransferSolRequest) (w : SmartWallet)
    (sb vb : ℕ) where
  -- The wallet that verifies: the one in use, or the one that the first action makes.
  abbrev pub wallet_at_use : SmartWallet
  wallet_at_use =
      if is_new w then first_wallet (authorization r) (compressed_pubkey t key) sb vb else w

  nonce_at_use : {read : Option ℕ} → IsReadFrom w read → wallet_at_use.nonce ≡ nonce_or_zero read
  unfolding first_wallet
  nonce_at_use (in_use n used at) = rw used at
  nonce_at_use (unused new) = rw new refl

  initialise-use :
      p.sha256 (compressed_pubkey t key) ≡ (authorization r).wallet_id
      → {read : Option ℕ} → IsReadFrom w read
      → initialise p w
          (authorization r)
          (record { pubkey = compressed_pubkey t key; message = preimage t r })
          sb
          vb
        ≡ ok wallet_at_use
  unfolding initialise
  initialise-use hashed (in_use n used at) = rw used refl
  initialise-use hashed (unused new) =
      rw new (rw hashed (rw (bytes_eq_refl (authorization r).wallet_id) refl))

  -- The program verifies the request's instruction on the account that its nonce was read from,
  -- before the expiry.
  pub verify-request :
      (now : ℤ) (rent : ℕ) {read : Option ℕ}
      → p.borsh ≡ t.borsh
      → p.sha256 ≡ t.sha256
      → r.wallet_id ≡ wallet_id t key
      → r.nonce ≡ nonce_or_zero read
      → IsAction (action r)
      → IsReadFrom w read
      → now <ℤ r.expires_at
      → r.nonce + 1 < 2 ^ 64
      → verify_enclave_authorization p
          (record {
            previous_instruction = ok (shown t key r);
            unix_timestamp = ok now;
            rent_minimum = ok rent;
          })
          w
          (authorization r)
          (action r)
          sb
          vb
        ≡ ok (compressed_pubkey t key, record wallet_at_use { nonce = r.nonce + 1 })
  unfolding authorization preimage wallet_id Wallet.wallet_id expected_preimage
  verify-request now rent same_borsh same_sha mine at_nonce fits read_from in_time room =
      IsVerified-verify p
        (record {
          previous_instruction = ok (shown t key r);
          unix_timestamp = ok now;
          rent_minimum = ok rent;
        })
        w (authorization r) (action r) sb vb
        (record {
          payload = record { pubkey = compressed_pubkey t key; message = preimage t r };
          base = wallet_at_use;
          now = now;
          loaded = shown_loaded t key r mine fits;
          initialised =
              initialise-use (ap (λ sha. sha (compressed_pubkey t key)) same_sha ∙ sym mine)
                read_from;
          nonce_matches = at_nonce ∙ sym (nonce_at_use read_from);
          clock = refl;
          in_time = in_time;
          bound =
              ap
                (λ (b : Borsh).
                  to_bytes b.serialize (expected_preimage (authorization r) (action r)))
                same_borsh;
          no_overflow = omega (arith, room, at_nonce, nonce_at_use read_from);
          by_payload = refl;
          written =
              ap (λ (n : ℕ). record wallet_at_use { nonce = n + 1 })
                (at_nonce ∙ sym (nonce_at_use read_from));
        })
