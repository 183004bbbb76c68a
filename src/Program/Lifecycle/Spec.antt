-- ===== src/Program/Lifecycle/Spec.antt =====
-- What a wallet promises, without the account's bytes, bumps and lamports: an owner's key, a counter,
-- the keys that may ask for a recovery, and the recovery that waits.
pub mod Opening
pub mod Refined
use enclavekit_anchor.Common.{
  ℕ, ◌+◌, ℤ, ◌<ℤ◌, ◌≤ℤ◌, Bytes, List, [], ◌∷◌, get_elem?, length, map, ◌≡◌, ◌≢◌, if◌then◌else◌,
}
use mathlib.Core.Option.{Option, none, some}
use enclavekit_anchor.Program.State.{
  SmartWallet, GuardianSlot, is_p256, PendingRotation, get_rotation, opens_at, closes_at,
}

pub record Wallet : Type 0 where
  pub owner : Bytes
  pub nonce : ℕ
  pub guardian_keys : List (Option Bytes)
  pub recovery : Option PendingRotation

-- A slot that may propose, by its key.
unfoldable pub guardian_key : GuardianSlot → Option Bytes
guardian_key slot = if is_p256 slot.kind then some slot.key else none

-- The wallet that a state account stands for.
unfoldable pub seen_as : SmartWallet → Wallet
unfolding guardian_key get_rotation
seen_as w = record {
  owner = w.active_key;
  nonce = w.nonce;
  guardian_keys = map guardian_key w.guardians;
  recovery = get_rotation w.rotation;
}

abbrev pub account_seen_as : Option SmartWallet → Option Wallet
account_seen_as none = none
account_seen_as (some w) = some (seen_as w)

-- The wallet of a key on its first use.
abbrev pub fresh : Bytes → Wallet
fresh key = record {
  owner = key;
  nonce = 1;
  guardian_keys = none ∷ none ∷ none ∷ [];
  recovery = none;
}

-- A guardian's proposal does not displace another guardian's that can still be confirmed.
pub data IsDisplaceable (by : ℕ) (now : ℤ) (held : Option PendingRotation) : Type 0 where
  nothing : held ≡ none → IsDisplaceable by now held
  own : (r : PendingRotation) → held ≡ some r → r.proposed_by ≡ by → IsDisplaceable by now held
  lapsed : (r : PendingRotation) → held ≡ some r → closes_at r <ℤ now → IsDisplaceable by now held

-- A signature for a wallet that is there counts.
pub data Counts (a : Option Wallet) (w : Wallet) : Type 0 where
  counts : (v : Wallet) → a ≡ some v → w ≡ record v { nonce = v.nonce + 1 } → Counts a w

module _ (hash : Bytes → Bytes) (wallet_id : Bytes) where
  -- A signature of `key` counts for the wallet that is there or, where there is none, makes the wallet
  -- of the key that `wallet_id` is the hash of.
  pub data Opens (a : Option Wallet) (key : Bytes) (w : Wallet) : Type 0 where
    opened : Counts a w → Opens a key w
    made : a ≡ none → hash key ≡ wallet_id → w ≡ fresh key → Opens a key w

  -- The steps at a time: what each signer may change, and what needs no signer.
  pub data Step (now : ℤ) (signer : Option Bytes) (a b : Option Wallet) : Type 0 where
    owner_pays :
        (w : Wallet) → signer ≡ some w.owner → Opens a w.owner w → b ≡ some w → Step now signer a b
    owner_names :
        (w : Wallet) (keys : List (Option Bytes))
        → signer ≡ some w.owner
        → Opens a w.owner w
        → length keys ≡ 3
        → b ≡ some (record w { guardian_keys = keys; recovery = none })
        → Step now signer a b
    owner_cancels :
        (w : Wallet) (r : PendingRotation)
        → signer ≡ some w.owner
        → Counts a w
        → w.recovery ≡ some r
        → b ≡ some (record w { recovery = none })
        → Step now signer a b
    owner_moves :
        (w : Wallet) (new_key : Bytes)
        → signer ≡ some w.owner
        → Counts a w
        → b ≡ some (record w { owner = new_key; recovery = none })
        → Step now signer a b
    guardian_proposes :
        (w : Wallet) (key new_key : Bytes) (i : ℕ)
        → signer ≡ some key
        → key ≢ w.owner
        → Counts a w
        → get_elem? w.guardian_keys i ≡ some (some key)
        → IsDisplaceable i now w.recovery
        → b
          ≡ some (record w {
            recovery = some (record { new_key = new_key; proposed_at = now; proposed_by = i });
          })
        → Step now signer a b
    anyone_confirms :
        (w : Wallet) (r : PendingRotation)
        → signer ≡ none
        → a ≡ some w
        → w.recovery ≡ some r
        → opens_at r ≤ℤ now
        → now ≤ℤ closes_at r
        → b ≡ some (record w { owner = r.new_key; recovery = none })
        → Step now signer a b
    owner_closes :
        (w : Wallet) → signer ≡ some w.owner → Counts a w → b ≡ none → Step now signer a b
