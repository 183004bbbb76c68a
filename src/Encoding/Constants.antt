-- ===== src/Encoding/Constants.antt =====
-- crates/enclavekit-encoding/src/constants.rs.
use enclavekit_anchor.Common.{ℕ, Bytes, [], ◌∷◌}

-- b"wallet"
abbrev pub wallet_seed : Bytes
wallet_seed = b'w' ∷ b'a' ∷ b'l' ∷ b'l' ∷ b'e' ∷ b't' ∷ []

-- b"vault"
abbrev pub vault_seed : Bytes
vault_seed = b'v' ∷ b'a' ∷ b'u' ∷ b'l' ∷ b't' ∷ []

abbrev pub compressed_pubkey_len : ℕ
compressed_pubkey_len = 33

abbrev pub max_guardians : ℕ
max_guardians = 3
