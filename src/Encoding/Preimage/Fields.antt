-- ===== src/Encoding/Preimage/Fields.antt =====
-- Each field of the preimage sits at its offset.
use enclavekit_anchor.Common.{
  ◌++◌, Bytes, ◌≡◌, ap, ◌∙◌, take, drop, take_prefix, drop_prefix, drop_further, u64_read,
  from_le_bytes, to_le_bytes, length-to_le_bytes, i64_bits, i64_bits-IsU64, refl,
}
use enclavekit_anchor.Encoding.Action.{Action}
use enclavekit_anchor.Encoding.Preimage.{
  Preimage, IsPreimage, to_bytes, domain_tag, program_id_offset, wallet_id_offset, nonce_offset,
  expires_at_offset, max_relayer_fee_offset, action_offset,
}

-- In the preimage of fields of the declared sizes, each field is read back at its offset: the two
-- ids as they are, the integers as 8 bytes little-endian, the expiry as its two's complement, and
-- the action's encoding from `action_offset` to the end.
pub to_bytes_fields :
    (serialize : Action → Bytes) (p : Preimage)
    → IsPreimage p
    → (take program_id_offset (to_bytes serialize p) ≡ domain_tag)
      × (take 32 (drop program_id_offset (to_bytes serialize p)) ≡ p.program_id)
      × (take 32 (drop wallet_id_offset (to_bytes serialize p)) ≡ p.wallet_id)
      × (from_le_bytes (take 8 (drop nonce_offset (to_bytes serialize p))) ≡ p.nonce)
      × (from_le_bytes (take 8 (drop expires_at_offset (to_bytes serialize p)))
          ≡ i64_bits p.expires_at)
      × (from_le_bytes (take 8 (drop max_relayer_fee_offset (to_bytes serialize p)))
          ≡ p.max_relayer_fee)
      × (drop action_offset (to_bytes serialize p) ≡ serialize p.action)
unfolding to_bytes
to_bytes_fields serialize p h =
    let b = to_bytes serialize p in
    let at_max = to_le_bytes 8 p.max_relayer_fee ++ serialize p.action in
    let at_expiry = to_le_bytes 8 (i64_bits p.expires_at) ++ at_max in
    let at_nonce = to_le_bytes 8 p.nonce ++ at_expiry in
    let at_wallet = p.wallet_id ++ at_nonce in
    let at_program = p.program_id ++ at_wallet in
    let e16 : drop 16 b ≡ at_program = drop_prefix 16 domain_tag at_program refl in
    let e48 = drop_further 16 32 b p.program_id at_wallet e16 h.program_id_array.0 in
    let e80 = drop_further 48 32 b p.wallet_id at_nonce e48 h.wallet_id_array.0 in
    let e88 = drop_further 80 8 b (to_le_bytes 8 p.nonce) at_expiry e80 (length-to_le_bytes 8 _) in
    let e96 =
      drop_further 88 8 b (to_le_bytes 8 (i64_bits p.expires_at)) at_max e88
        (length-to_le_bytes 8 _) in
    let e104 =
      drop_further 96 8 b (to_le_bytes 8 p.max_relayer_fee) _ e96 (length-to_le_bytes 8 _) in
    (
      take_prefix 16 domain_tag at_program refl,
      ap (take 32) e16 ∙ take_prefix 32 p.program_id at_wallet h.program_id_array.0,
      ap (take 32) e48 ∙ take_prefix 32 p.wallet_id at_nonce h.wallet_id_array.0,
      ap (λ (t : Bytes). from_le_bytes (take 8 t)) e80 ∙ u64_read p.nonce at_expiry h.nonce_u64,
      ap (λ (t : Bytes). from_le_bytes (take 8 t)) e88
          ∙ u64_read (i64_bits p.expires_at) at_max (i64_bits-IsU64 p.expires_at),
      ap (λ (t : Bytes). from_le_bytes (take 8 t)) e96
          ∙ u64_read p.max_relayer_fee (serialize p.action) h.max_relayer_fee_u64,
      e104,
    )
