-- ===== src/Program/Lifecycle/Invariant.antt =====
-- The invariant of every reachable account, and the nonce along the steps.
use enclavekit_anchor.Common.{Bytes, bytes_eq, bytes_eq_refl, true, ◌≡◌, inl, inr}
use mathlib.Core.Option.{Option, none, some}
use enclavekit_anchor.Program.State.{SmartWallet, is_new, zero_key}
use enclavekit_anchor.Program.State.WellFormed.{IsWellFormed}
use enclavekit_anchor.Program.Platform.{Sysvars, Platform}
use enclavekit_anchor.Program.Lifecycle.Preservation.{
  HasRealKey, IsReady, transfer-IsWellFormed, sweep-IsWellFormed, set_guardians-IsWellFormed,
  cancel-IsWellFormed, propose-IsWellFormed, confirm-IsWellFormed,
}
use enclavekit_anchor.Program.Lifecycle.Steps.{
  load_or_init, Keeps, transferred, swept, guardians_replaced, cancelled, proposed, confirmed,
  Reaches, absent, kept, removed,
}

-- An account is absent, or holds a well-formed wallet.
abbrev pub IsSound : Option SmartWallet → Type 0
IsSound none = Unit
IsSound (some w) = IsWellFormed w

pub IsSound-IsReady :
    (a : Option SmartWallet) (w : SmartWallet) → IsSound a → w ≡ load_or_init a → IsReady w
unfolding is_new
IsSound-IsReady none w s e = inl (rw e zero_new)
  where
    zero_new : bytes_eq zero_key zero_key ≡ true
    zero_new = bytes_eq_refl zero_key
IsSound-IsReady (some v) w s e = inr (rw e s)

pub IsSound-some :
    (a : Option SmartWallet) (w : SmartWallet) → IsSound a → a ≡ some w → IsWellFormed w
IsSound-some none w s e = cc
IsSound-some (some v) w s e = rw (some_eq v w e) at s
  where
    some_eq : (x y : SmartWallet) → some x ≡ some y → x ≡ y
    some_eq x y e = cc

module _ (p : Platform) (wallet_id : Bytes) where
  pub Keeps-IsSound :
      (sys : Sysvars) (a : Option SmartWallet) (w' : SmartWallet)
      → HasRealKey sys
      → IsSound a
      → Keeps p wallet_id sys a w'
      → IsWellFormed w'
  Keeps-IsSound sys a w' real s (transferred self auth lamports fee bumps bank o _ loaded h e) =
      rw e (
        transfer-IsWellFormed p sys real self auth lamports fee bumps bank o
          (IsSound-IsReady a self.wallet s loaded) h)
  Keeps-IsSound sys a w' real s (swept self auth fee bumps bank o _ loaded h e) = rw e (
      sweep-IsWellFormed p sys real self auth fee bumps bank o
        (IsSound-IsReady a self.wallet s loaded) h)
  Keeps-IsSound sys a w' real s
        (guardians_replaced self auth gs fee bumps bank o _ three loaded h e) =
      rw e (
        set_guardians-IsWellFormed p sys real self auth gs fee bumps bank o three
          (IsSound-IsReady a self.wallet s loaded) h)
  Keeps-IsSound sys a w' real s (cancelled self auth fee bank o _ there h e) =
      rw e
        (cancel-IsWellFormed p sys real self auth fee bank o (IsSound-some a self.wallet s there) h)
  Keeps-IsSound sys a w' real s (proposed self auth new_key fee bank o _ there h e) = rw e (
      propose-IsWellFormed p sys real self auth new_key fee bank o
        (IsSound-some a self.wallet s there) h)
  Keeps-IsSound sys a w' real s (confirmed self bank o there h e) =
      rw e (confirm-IsWellFormed sys self bank o (IsSound-some a self.wallet s there) h)

  -- Whatever instructions succeed, in any order, with closings and new beginnings among them, the
  -- account is absent or holds a well-formed wallet, if no precompile instruction among them names a
  -- key of zeros.
  pub Reaches-IsSound : {a : Option SmartWallet} → Reaches p wallet_id a → IsSound a
  Reaches-IsSound absent = tt
  Reaches-IsSound (kept sys r real k) = Keeps-IsSound sys _ _ real (Reaches-IsSound r) k
  Reaches-IsSound (removed sys r c) = tt
