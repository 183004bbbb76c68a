-- ===== src/Program/Events.antt =====
-- programs/enclavekit/src/events.rs. `Event` is the sum that `emit_cpi!` takes.
use enclavekit_anchor.Common.{ℕ, ℤ, Bytes, Bool, List}
use enclavekit_anchor.Program.State.{Guardian}

pub record WalletCreated : Type 0 where
  pub wallet_id : Bytes
  pub key : Bytes

pub record SolTransferred : Type 0 where
  pub wallet_id : Bytes
  pub to : Bytes
  pub lamports : ℕ
  pub relayer_fee : ℕ

pub record VaultSwept : Type 0 where
  pub wallet_id : Bytes
  pub to : Bytes
  pub lamports : ℕ
  pub relayer_fee : ℕ

pub record WalletClosed : Type 0 where
  pub wallet_id : Bytes
  pub to : Bytes
  pub lamports : ℕ
  pub relayer_fee : ℕ

pub record GuardiansSet : Type 0 where
  pub wallet_id : Bytes
  pub guardians : List Guardian

pub record RotationProposed : Type 0 where
  pub wallet_id : Bytes
  pub new_key : Bytes
  pub guardian : Bytes
  pub opens_at : ℤ

pub record RotationCancelled : Type 0 where
  pub wallet_id : Bytes
  pub new_key : Bytes

pub record KeyRotated : Type 0 where
  pub wallet_id : Bytes
  pub new_key : Bytes
  pub recovery : Bool

pub data Event : Type 0 where
  wallet_created : WalletCreated → Event
  sol_transferred : SolTransferred → Event
  vault_swept : VaultSwept → Event
  wallet_closed : WalletClosed → Event
  guardians_set : GuardiansSet → Event
  rotation_proposed : RotationProposed → Event
  rotation_cancelled : RotationCancelled → Event
  key_rotated : KeyRotated → Event
