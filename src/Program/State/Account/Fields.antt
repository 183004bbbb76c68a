-- ===== src/Program/State/Account/Fields.antt =====
-- Every field of the account sits at its offset, whatever the wallet holds.
use enclavekit_anchor.Common.{
  ℕ, ◌+◌, ◌*◌, Bytes, [], ◌∷◌, ◌++◌, length, take, drop, get_elem?, ◌≡◌, refl, sym, ap, ◌∙◌, arith,
  take_prefix, drop_prefix, drop_further, u64_read, drop-drop, length-drop, to_le_bytes,
  from_le_bytes, length-to_le_bytes, i64_bits, i64_bits-IsU64,
}
use mathlib.Core.List.{append_assoc}
use mathlib.Core.Option.{some}
use enclavekit_anchor.Encoding.Layout.{
  wallet_id_offset, active_key_offset, nonce_offset, attested_offset, rotation_offset,
  rotation_new_key_offset, rotation_proposed_at_offset, rotation_proposed_by_offset,
  state_bump_offset, vault_bump_offset, state_len, guardian_kind_offset, guardian_key_offset,
  guardian_rp_id_hash_offset,
}
use enclavekit_anchor.Program.State.{SmartWallet, GuardianSlot}
use enclavekit_anchor.Program.State.Account.{
  kind_byte, bool_byte, slot_bytes, slots_bytes, state_bytes, IsSlotSized, IsSized, AccountCodec,
}
use enclavekit_anchor.Program.State.Account.Slots.{length-slots_bytes, slot_found}

module _ (discriminator : Bytes) (w : SmartWallet) (eight : length discriminator ≡ 8)
    (h : IsSized w) where
  abbrev b : Bytes
  b = state_bytes discriminator w

  abbrev from_bumps : Bytes
  from_bumps = w.state_bump ∷ w.vault_bump ∷ []

  abbrev from_proposed_by : Bytes
  from_proposed_by = (w.rotation.proposal.proposed_by ∷ []) ++ from_bumps

  abbrev from_proposed_at : Bytes
  from_proposed_at = to_le_bytes 8 (i64_bits w.rotation.proposal.proposed_at) ++ from_proposed_by

  abbrev from_new_key : Bytes
  from_new_key = w.rotation.proposal.new_key ++ from_proposed_at

  abbrev from_rotation : Bytes
  from_rotation = (bool_byte w.rotation.pending ∷ []) ++ from_new_key

  abbrev from_guardians : Bytes
  from_guardians = slots_bytes w.guardians ++ from_rotation

  abbrev from_attested : Bytes
  from_attested = (bool_byte w.attested ∷ []) ++ from_guardians

  abbrev from_nonce : Bytes
  from_nonce = to_le_bytes 8 w.nonce ++ from_attested

  abbrev from_active_key : Bytes
  from_active_key = w.active_key ++ from_nonce

  abbrev from_wallet_id : Bytes
  from_wallet_id = w.wallet_id ++ from_active_key

  at_wallet_id : drop 8 b ≡ from_wallet_id
  unfolding state_bytes
  at_wallet_id = drop_prefix 8 discriminator from_wallet_id eight

  at_active_key : drop 40 b ≡ from_active_key
  at_active_key = drop_further 8 32 b w.wallet_id from_active_key at_wallet_id h.wallet_id_len

  at_nonce : drop 73 b ≡ from_nonce
  at_nonce = drop_further 40 33 b w.active_key from_nonce at_active_key h.active_key_len

  at_attested : drop 81 b ≡ from_attested
  at_attested =
      drop_further 73 8 b (to_le_bytes 8 w.nonce) from_attested at_nonce
        (length-to_le_bytes 8 w.nonce)

  at_guardians : drop 82 b ≡ from_guardians
  at_guardians = drop_further 81 1 b (bool_byte w.attested ∷ []) from_guardians at_attested refl

  at_rotation : drop 280 b ≡ from_rotation
  at_rotation =
      drop_further 82 198 b (slots_bytes w.guardians) from_rotation at_guardians
        (omega (arith, length-slots_bytes w.guardians h.slots_sized, h.guardians_len))

  at_new_key : drop 281 b ≡ from_new_key
  at_new_key =
      drop_further 280 1 b (bool_byte w.rotation.pending ∷ []) from_new_key at_rotation refl

  at_proposed_at : drop 314 b ≡ from_proposed_at
  at_proposed_at =
      drop_further 281 33 b w.rotation.proposal.new_key from_proposed_at at_new_key h.new_key_len

  at_proposed_by : drop 322 b ≡ from_proposed_by
  at_proposed_by =
      drop_further 314 8 b (to_le_bytes 8 (i64_bits w.rotation.proposal.proposed_at))
        from_proposed_by at_proposed_at (length-to_le_bytes 8 _)

  at_bumps : drop 323 b ≡ from_bumps
  at_bumps =
      drop_further 322 1 b (w.rotation.proposal.proposed_by ∷ []) from_bumps at_proposed_by refl

  -- The length, from what is left at offset 323.
  length-b : length b ≡ 325
  length-b = omega (arith, length-drop 323 b, ap length at_bumps)

module _ (c : AccountCodec) (w : SmartWallet) (h : IsSized w) where
  -- In the account of a wallet of the declared sizes, every field but the guardians is read back at
  -- the offset of state.rs, integers as little-endian; and the account is `state_len` bytes long,
  -- whatever the wallet holds.
  pub state_fields :
      (length (c.try_serialize w) ≡ state_len)
      × (take 32 (drop wallet_id_offset (c.try_serialize w)) ≡ w.wallet_id)
      × (take 33 (drop active_key_offset (c.try_serialize w)) ≡ w.active_key)
      × (from_le_bytes (take 8 (drop nonce_offset (c.try_serialize w))) ≡ w.nonce)
      × (take 1 (drop attested_offset (c.try_serialize w)) ≡ bool_byte w.attested ∷ [])
      × (take 1 (drop rotation_offset (c.try_serialize w)) ≡ bool_byte w.rotation.pending ∷ [])
      × (take 33 (drop rotation_new_key_offset (c.try_serialize w)) ≡ w.rotation.proposal.new_key)
      × (from_le_bytes (take 8 (drop rotation_proposed_at_offset (c.try_serialize w)))
          ≡ i64_bits w.rotation.proposal.proposed_at)
      × (take 1 (drop rotation_proposed_by_offset (c.try_serialize w))
          ≡ w.rotation.proposal.proposed_by ∷ [])
      × (take 1 (drop state_bump_offset (c.try_serialize w)) ≡ w.state_bump ∷ [])
      × (take 1 (drop vault_bump_offset (c.try_serialize w)) ≡ w.vault_bump ∷ [])
  state_fields =
      let d = c.discriminator in
      let eight = c.discriminator_size in
      let u64_at = λ (t : Bytes). from_le_bytes (take 8 t) in
      rw (c.documented w h) (
        length-b d w eight h,
        ap (take 32) (at_wallet_id d w eight h)
            ∙ take_prefix 32 w.wallet_id (from_active_key d w eight h) h.wallet_id_len,
        ap (take 33) (at_active_key d w eight h)
            ∙ take_prefix 33 w.active_key (from_nonce d w eight h) h.active_key_len,
        ap u64_at (at_nonce d w eight h) ∙ u64_read w.nonce (from_attested d w eight h) h.nonce_u64,
        ap (take 1) (at_attested d w eight h),
        ap (take 1) (at_rotation d w eight h),
        ap (take 33) (at_new_key d w eight h)
            ∙ take_prefix 33 w.rotation.proposal.new_key (from_proposed_at d w eight h)
                h.new_key_len,
        ap u64_at (at_proposed_at d w eight h)
            ∙ u64_read (i64_bits w.rotation.proposal.proposed_at) (from_proposed_by d w eight h)
                (i64_bits-IsU64 _),
        ap (take 1) (at_proposed_by d w eight h),
        ap (take 1) (at_bumps d w eight h),
        ap (take 1) (
            drop_further 323 1 (state_bytes d w) (w.state_bump ∷ []) (w.vault_bump ∷ [])
              (at_bumps d w eight h) refl),
      )

  pub at_rotation_bytes :
      take 34 (drop 280 (c.try_serialize w))
      ≡ bool_byte w.rotation.pending ∷ w.rotation.proposal.new_key
  at_rotation_bytes =
      let d = c.discriminator in
      let eight = c.discriminator_size in
      rw (c.documented w h) (
        ap (take 34) (at_rotation d w eight h)
        ∙ ap (λ (t : Bytes). bool_byte w.rotation.pending ∷ t)
            (take_prefix 33 w.rotation.proposal.new_key (from_proposed_at d w eight h)
              h.new_key_len))

  pub at_slot :
      (i : ℕ) (slot : GuardianSlot)
      → get_elem? w.guardians i ≡ some slot
      → (after : Bytes) × (drop (82 + i * 66) (c.try_serialize w) ≡ slot_bytes slot ++ after)
        × IsSlotSized slot
  at_slot i slot e =
      let (after, found, fits) =
        slot_found w.guardians (from_rotation c.discriminator w c.discriminator_size h) i slot
          h.slots_sized e in
      (
        after,
        rw (c.documented w h) (
            sym (drop-drop (i * 66) 82 (state_bytes c.discriminator w))
            ∙ ap (drop (i * 66)) (at_guardians c.discriminator w c.discriminator_size h)
            ∙ found),
        fits,
      )

  -- Slot `i` of the guardians is read back at its three offsets: its kind, its key and the hash of
  -- its rpId, where the wallet has such a slot.
  pub slot_fields :
      (i : ℕ) (slot : GuardianSlot)
      → get_elem? w.guardians i ≡ some slot
      → (take 1 (drop (guardian_kind_offset i) (c.try_serialize w)) ≡ kind_byte slot.kind ∷ [])
        × (take 33 (drop (guardian_key_offset i) (c.try_serialize w)) ≡ slot.key)
        × (take 32 (drop (guardian_rp_id_hash_offset i) (c.try_serialize w)) ≡ slot.rp_id_hash)
  unfolding guardian_rp_id_hash_offset guardian_key_offset guardian_kind_offset slot_bytes
  slot_fields i slot e =
      let (after, found, fits) = at_slot i slot e in
      let b = c.try_serialize w in
      let kind = kind_byte slot.kind ∷ [] in
      let hash = slot.rp_id_hash ++ after in
      let opened : drop (82 + i * 66) b ≡ kind ++ (slot.key ++ hash) =
        found ∙ ap (λ (t : Bytes). kind ++ t) (append_assoc slot.key slot.rp_id_hash after) in
      let key = drop_further (82 + i * 66) 1 b kind (slot.key ++ hash) opened refl in
      let rp = drop_further (82 + i * 66 + 1) 33 b slot.key hash key fits.key_len in
      (
        ap (take 1) opened,
        ap (take 33) key ∙ take_prefix 33 slot.key hash fits.key_len,
        ap (take 32) rp ∙ take_prefix 32 slot.rp_id_hash after fits.rp_id_hash_len,
      )
