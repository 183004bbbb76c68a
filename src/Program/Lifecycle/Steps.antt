-- ===== src/Program/Lifecycle/Steps.antt =====
-- The steps of one wallet's state account, and what holds along them. The account is the PDA of
-- `wallet_id`: each instruction names that id, and `init_if_needed` hands an absent account over as
-- zeros. Lamports, sysvars and arguments are any at each step.
use enclavekit_anchor.Common.{ℕ, Bytes, false, List, replicate, length, ◌≡◌}
use mathlib.Core.Option.{Option, none, some}
use enclavekit_anchor.Program.Errors.{ok}
use enclavekit_anchor.Program.State.{
  SmartWallet, Guardian, empty_guardian_slot, empty_rotation_slot, zero_key,
}
use enclavekit_anchor.Program.Events.{
  SolTransferred, VaultSwept, WalletClosed, GuardiansSet, RotationCancelled, KeyRotated,
}
use enclavekit_anchor.Program.Platform.{Sysvars, Platform, Bank}
use enclavekit_anchor.Program.Authorization.{Authorization}
use enclavekit_anchor.Program.Instructions.Outcome.{Outcome, Bumps}
use enclavekit_anchor.Program.Instructions.TransferSol.{TransferSol, transfer}
use enclavekit_anchor.Program.Instructions.SweepVault.{SweepVault, sweep}
use enclavekit_anchor.Program.Instructions.SetGuardians.{SetGuardians, set_guardians}
use enclavekit_anchor.Program.Instructions.CancelRotation.{CancelRotation, cancel}
use enclavekit_anchor.Program.Instructions.ConfirmRotation.{ConfirmRotation, confirm}
use enclavekit_anchor.Program.Instructions.ProposeRotation.{ProposeRotation, Proposal, propose}
use enclavekit_anchor.Program.Instructions.CloseWallet.{CloseWallet, close}
use enclavekit_anchor.Program.Lifecycle.Preservation.{HasRealKey}

-- The state that `init_if_needed` makes: all zeros.
abbrev pub zeroed_wallet : SmartWallet
zeroed_wallet = record {
  wallet_id = replicate 32 0;
  active_key = zero_key;
  nonce = 0;
  attested = false;
  guardians = replicate 3 empty_guardian_slot;
  rotation = empty_rotation_slot;
  state_bump = 0;
  vault_bump = 0;
}

abbrev pub load_or_init : Option SmartWallet → SmartWallet
load_or_init none = zeroed_wallet
load_or_init (some w) = w

module _ (p : Platform) (wallet_id : Bytes) where
  -- A step that leaves the account in place: `w` before, as loaded, and `w'` after.
  pub data Keeps (sys : Sysvars) (a : Option SmartWallet) (w' : SmartWallet) : Type 0 where
    transferred :
        (self : TransferSol) (auth : Authorization) (lamports relayer_fee : ℕ) (bumps : Bumps)
        (bank : Bank) (o : Outcome SolTransferred)
        → auth.wallet_id ≡ wallet_id
        → self.wallet ≡ load_or_init a
        → transfer p sys self auth lamports relayer_fee bumps bank ≡ ok o
        → w' ≡ o.wallet
        → Keeps sys a w'
    swept :
        (self : SweepVault) (auth : Authorization) (relayer_fee : ℕ) (bumps : Bumps) (bank : Bank)
        (o : Outcome VaultSwept)
        → auth.wallet_id ≡ wallet_id
        → self.wallet ≡ load_or_init a
        → sweep p sys self auth relayer_fee bumps bank ≡ ok o
        → w' ≡ o.wallet
        → Keeps sys a w'
    guardians_replaced :
        (self : SetGuardians) (auth : Authorization) (guardians : List Guardian) (relayer_fee : ℕ)
        (bumps : Bumps) (bank : Bank) (o : Outcome GuardiansSet)
        → auth.wallet_id ≡ wallet_id
        → length guardians ≡ 3
        → self.wallet ≡ load_or_init a
        → set_guardians p sys self auth guardians relayer_fee bumps bank ≡ ok o
        → w' ≡ o.wallet
        → Keeps sys a w'
    cancelled :
        (self : CancelRotation) (auth : Authorization) (relayer_fee : ℕ) (bank : Bank)
        (o : Outcome RotationCancelled)
        → auth.wallet_id ≡ wallet_id
        → a ≡ some self.wallet
        → cancel p sys self auth relayer_fee bank ≡ ok o
        → w' ≡ o.wallet
        → Keeps sys a w'
    proposed :
        (self : ProposeRotation) (auth : Authorization) (new_key : Bytes) (relayer_fee : ℕ)
        (bank : Bank) (o : Outcome Proposal)
        → auth.wallet_id ≡ wallet_id
        → a ≡ some self.wallet
        → propose p sys self auth new_key relayer_fee bank ≡ ok o
        → w' ≡ o.wallet
        → Keeps sys a w'
    confirmed :
        (self : ConfirmRotation) (bank : Bank) (o : Outcome KeyRotated)
        → a ≡ some self.wallet
        → confirm sys self bank ≡ ok o
        → w' ≡ o.wallet
        → Keeps sys a w'

  -- `close_wallet` removes the account.
  pub data Closes (sys : Sysvars) (a : Option SmartWallet) : Type 0 where
    closed :
        (self : CloseWallet) (auth : Authorization) (relayer_fee : ℕ) (bank : Bank)
        (o : Outcome WalletClosed)
        → auth.wallet_id ≡ wallet_id
        → a ≡ some self.wallet
        → close p sys self auth relayer_fee bank ≡ ok o
        → Closes sys a

  -- The account goes on from `a`, by steps that leave it in place.
  pub data Lives (a : Option SmartWallet) : Option SmartWallet → Type 0 where
    here : Lives a a
    next :
        {b : Option SmartWallet} {w : SmartWallet} (sys : Sysvars)
        → Lives a b
        → HasRealKey sys
        → Keeps sys b w
        → Lives a (some w)

  -- Every state that the account reaches from nothing, closings and new beginnings included.
  pub data Reaches : Option SmartWallet → Type 0 where
    absent : Reaches none
    kept :
        {b : Option SmartWallet} {w : SmartWallet} (sys : Sysvars)
        → Reaches b
        → HasRealKey sys
        → Keeps sys b w
        → Reaches (some w)
    removed : {b : Option SmartWallet} (sys : Sysvars) → Reaches b → Closes sys b → Reaches none
