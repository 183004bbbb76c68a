-- ===== src/Encoding/Preimage/Binding.antt =====
-- The signed bytes determine every field of the preimage.
use enclavekit_anchor.Common.{
  ℕ, ◌≡◌, length, append_split, length-to_le_bytes, to_le_bytes, i64_bits, i64_bits-IsU64,
  i64_bits_injective, u64_le_injective, arith,
}
use enclavekit_anchor.Encoding.Borsh.{Borsh, serialize_injective}
use enclavekit_anchor.Encoding.Preimage.{Preimage, IsPreimage, to_bytes, domain_tag}

le8_length : (v w : ℕ) → length (to_le_bytes 8 v) ≡ length (to_le_bytes 8 w)
le8_length v w = omega (arith, length-to_le_bytes 8 v, length-to_le_bytes 8 w)

-- For any borsh encoding with its round trip, two preimages of the declared sizes with the same
-- bytes are equal: a signature binds the program, the wallet, the nonce, the expiry, the fee cap
-- and the action.
pub to_bytes_injective :
    (borsh : Borsh) (p q : Preimage)
    → IsPreimage p
    → IsPreimage q
    → to_bytes borsh.serialize p ≡ to_bytes borsh.serialize q
    → p ≡ q
unfolding to_bytes
to_bytes_injective borsh p q hp hq e =
    let (_, e1) = append_split domain_tag _ domain_tag _ (omega arith) e in
    let (program, e2) = append_split p.program_id _ q.program_id _ (omega arith) e1 in
    let (wallet, e3) = append_split p.wallet_id _ q.wallet_id _ (omega arith) e2 in
    let (n, e4) = append_split _ _ _ _ (le8_length p.nonce q.nonce) e3 in
    let (x, e5) =
      append_split _ _ _ _ (le8_length (i64_bits p.expires_at) (i64_bits q.expires_at)) e4 in
    let (m, a) = append_split _ _ _ _ (le8_length p.max_relayer_fee q.max_relayer_fee) e5 in
    λ i. record {
      program_id = program i;
      wallet_id = wallet i;
      nonce = u64_le_injective p.nonce q.nonce hp.nonce_u64 hq.nonce_u64 n i;
      expires_at =
          i64_bits_injective p.expires_at q.expires_at hp.expires_at_i64 hq.expires_at_i64
            (u64_le_injective _ _ (i64_bits-IsU64 p.expires_at) (i64_bits-IsU64 q.expires_at) x) i;
      max_relayer_fee = u64_le_injective _ _ hp.max_relayer_fee_u64 hq.max_relayer_fee_u64 m i;
      action = serialize_injective borsh p.action q.action hp.action_fits hq.action_fits a i;
    }
