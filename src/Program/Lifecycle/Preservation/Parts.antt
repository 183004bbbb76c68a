-- ===== src/Program/Lifecycle/Preservation/Parts.antt =====
-- The parts of a well-formed wallet that an instruction writes.
use enclavekit_anchor.Common.{
  ℕ, Bytes, bytes_eq, false, List, [], ◌∷◌, map, All, ◌≡◌, refl, sym, ap,
}
use mathlib.Core.Bool.{false≢true}
use enclavekit_anchor.Program.State.{
  Guardian, guardian_slot_from, SmartWallet, new_rotation, zero_key,
}
use enclavekit_anchor.Program.State.Guardians.{p256_guardian_first}
use enclavekit_anchor.Program.State.WellFormed.{
  IsSlot, free, guardian, idle, proposed, IsWellFormed,
}
use enclavekit_anchor.Program.Platform.{Sysvars}
use enclavekit_anchor.Program.Authorization.{Authorization, first_wallet}
use enclavekit_anchor.Program.Instructions.SetGuardians.{any_web_authn}
use enclavekit_anchor.Program.Instructions.ProposeRotation.{Proposal, rotate_now}
use enclavekit_anchor.Program.Instructions.ProposeRotation.Proposed.{Decided, by_owner, by_guardian}

-- The nonce is no part of the invariant.
pub IsWellFormed-nonce :
    (w : SmartWallet) (n : ℕ) → IsWellFormed w → IsWellFormed (record w { nonce = n })
IsWellFormed-nonce w n h = record {
  in_use = h.in_use;
  three_slots = h.three_slots;
  slots = h.slots;
  rotation_ok = h.rotation_ok;
}

pub first_wallet-IsWellFormed :
    (auth : Authorization) (key : Bytes) (sb vb : ℕ)
    → bytes_eq key zero_key ≡ false
    → IsWellFormed (first_wallet auth key sb vb)
unfolding first_wallet
first_wallet-IsWellFormed auth key sb vb real = record {
  in_use = real;
  three_slots = refl;
  slots = (free refl, (free refl, (free refl, tt)));
  rotation_ok = idle refl;
}

pub guardian_slot_from-IsSlot :
    (gs : List Guardian) → any_web_authn gs ≡ false → All IsSlot (map guardian_slot_from gs)
unfolding any_web_authn guardian_slot_from
guardian_slot_from-IsSlot [] h = tt
guardian_slot_from-IsSlot (Guardian.none ∷ gs) h = (free refl, guardian_slot_from-IsSlot gs h)
guardian_slot_from-IsSlot (Guardian.p256 k ∷ gs) h =
    (guardian refl refl, guardian_slot_from-IsSlot gs h)
guardian_slot_from-IsSlot (Guardian.web_authn k ∷ gs) h = absurd (false≢true (sym h))

pub Decided-IsWellFormed :
    (sys : Sysvars) (before : SmartWallet) (signer new_key : Bytes) (event : Proposal)
    (after : SmartWallet)
    → bytes_eq new_key zero_key ≡ false
    → IsWellFormed before
    → Decided sys before signer new_key (event, after)
    → IsWellFormed after
unfolding rotate_now new_rotation
Decided-IsWellFormed sys before signer new_key event after set formed (by_owner _ e) =
    rw (ap (λ (r : Proposal × SmartWallet). r.1) e) (record {
      in_use = set;
      three_slots = formed.three_slots;
      slots = formed.slots;
      rotation_ok = idle refl;
    })
Decided-IsWellFormed sys before signer new_key event after set formed (by_guardian _ g) =
    let (slot, at, names, _) = p256_guardian_first before signer g.slot g.named in
    rw (ap (λ (r : Proposal × SmartWallet). r.1) g.gives) (record {
      in_use = formed.in_use;
      three_slots = formed.three_slots;
      slots = formed.slots;
      rotation_ok = proposed slot refl set at names.0;
    })
