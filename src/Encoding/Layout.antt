-- ===== src/Encoding/Layout.antt =====
-- crates/enclavekit-encoding/src/state.rs: where each field of the state account sits.
use enclavekit_anchor.Common.{ℕ, ◌+◌, ◌*◌}
use enclavekit_anchor.Encoding.Constants.{compressed_pubkey_len, max_guardians}

abbrev pub discriminator_len : ℕ
discriminator_len = 8

abbrev pub wallet_id_offset : ℕ
wallet_id_offset = discriminator_len

abbrev pub active_key_offset : ℕ
active_key_offset = wallet_id_offset + 32

abbrev pub nonce_offset : ℕ
nonce_offset = active_key_offset + compressed_pubkey_len

abbrev pub attested_offset : ℕ
attested_offset = nonce_offset + 8

abbrev pub guardians_offset : ℕ
guardians_offset = attested_offset + 1

abbrev pub guardian_slot_len : ℕ
guardian_slot_len = 1 + compressed_pubkey_len + 32

abbrev pub guardian_kind_none : ℕ
guardian_kind_none = 0

abbrev pub guardian_kind_p256 : ℕ
guardian_kind_p256 = 1

abbrev pub guardian_kind_webauthn : ℕ
guardian_kind_webauthn = 2

abbrev pub rotation_offset : ℕ
rotation_offset = guardians_offset + max_guardians * guardian_slot_len

abbrev pub rotation_new_key_offset : ℕ
rotation_new_key_offset = rotation_offset + 1

abbrev pub rotation_proposed_at_offset : ℕ
rotation_proposed_at_offset = rotation_new_key_offset + compressed_pubkey_len

abbrev pub rotation_proposed_by_offset : ℕ
rotation_proposed_by_offset = rotation_proposed_at_offset + 8

abbrev pub state_bump_offset : ℕ
state_bump_offset = rotation_proposed_by_offset + 1

abbrev pub vault_bump_offset : ℕ
vault_bump_offset = state_bump_offset + 1

abbrev pub state_len : ℕ
state_len = vault_bump_offset + 1

unfoldable pub guardian_kind_offset : ℕ → ℕ
guardian_kind_offset index = guardians_offset + index * guardian_slot_len

unfoldable pub guardian_key_offset : ℕ → ℕ
unfolding guardian_kind_offset
guardian_key_offset index = guardian_kind_offset index + 1

unfoldable pub guardian_rp_id_hash_offset : ℕ → ℕ
unfolding guardian_key_offset
guardian_rp_id_hash_offset index = guardian_key_offset index + compressed_pubkey_len
