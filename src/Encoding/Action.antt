-- ===== src/Encoding/Action.antt =====
-- crates/enclavekit-encoding/src/action.rs: the actions that an enclave signs.
use enclavekit_anchor.Common.{ℕ, Bytes, IsArray, IsU64, List, All, length, ◌≡◌}
use enclavekit_anchor.Encoding.Constants.{compressed_pubkey_len, max_guardians}

pub data Guardian : Type 0 where
  none : Guardian
  p256 : Bytes → Guardian
  web_authn : Bytes → Guardian

pub data Action : Type 0 where
  transfer_sol : (to : Bytes) → (lamports : ℕ) → Action
  transfer_token : (mint : Bytes) → (to : Bytes) → (amount : ℕ) → Action
  propose_rotation : (new_key : Bytes) → Action
  cancel_rotation : Action
  set_guardians : (guardians : List Guardian) → Action
  sweep_vault : (to : Bytes) → Action
  close_wallet : (to : Bytes) → Action

-- The sizes that the Rust types fix.
abbrev pub IsGuardian : Guardian → Type 0
IsGuardian Guardian.none = Unit
IsGuardian (Guardian.p256 key) = IsArray compressed_pubkey_len key
IsGuardian (Guardian.web_authn key) = IsArray compressed_pubkey_len key

abbrev pub IsAction : Action → Type 0
IsAction (Action.transfer_sol to lamports) = IsArray 32 to × IsU64 lamports
IsAction (Action.transfer_token mint to amount) = IsArray 32 mint × IsArray 32 to × IsU64 amount
IsAction (Action.propose_rotation new_key) = IsArray compressed_pubkey_len new_key
IsAction Action.cancel_rotation = Unit
IsAction (Action.set_guardians guardians) =
    (length guardians ≡ max_guardians) × All IsGuardian guardians
IsAction (Action.sweep_vault to) = IsArray 32 to
IsAction (Action.close_wallet to) = IsArray 32 to
