-- ===== src/Encoding/Wallet.antt =====
-- crates/enclavekit-encoding/src/wallet.rs. SHA-256 is the `sha2` crate's, a parameter.
use enclavekit_anchor.Common.{Bytes}

unfoldable pub wallet_id : (Bytes → Bytes) → Bytes → Bytes
wallet_id sha256 compressed_pubkey = sha256 compressed_pubkey
