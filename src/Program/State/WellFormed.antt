-- ===== src/Program/State/WellFormed.antt =====
-- The invariant of a wallet in use.
use enclavekit_anchor.Common.{bytes_eq, true, false, List, length, All, get_elem?, replicate, ◌≡◌}
use mathlib.Core.Option.{Option}
use enclavekit_anchor.Program.State.{
  GuardianSlot, GuardianKind, is_p256, empty_guardian_slot, SmartWallet, RotationSlot,
  empty_rotation_slot, zero_key,
}

-- A stored slot: empty and all zeros, or a P-256 guardian with no rpId hash.
pub data IsSlot (slot : GuardianSlot) : Type 0 where
  free : slot ≡ empty_guardian_slot → IsSlot slot
  guardian : slot.kind ≡ GuardianKind.p256 → slot.rp_id_hash ≡ replicate 32 0 → IsSlot slot

-- No rotation and all zeros, or a proposal of a key that is not all zeros, made by a slot that
-- holds a P-256 guardian.
pub data IsRotation (guardians : List GuardianSlot) (rotation : RotationSlot) : Type 0 where
  idle : rotation ≡ empty_rotation_slot → IsRotation guardians rotation
  proposed :
      (by : GuardianSlot)
      → rotation.pending ≡ true
      → bytes_eq rotation.proposal.new_key zero_key ≡ false
      → get_elem? guardians rotation.proposal.proposed_by ≡ Option.some by
      → is_p256 by.kind ≡ true
      → IsRotation guardians rotation

pub record IsWellFormed (w : SmartWallet) : Type 0 where
  pub in_use : bytes_eq w.active_key zero_key ≡ false
  pub three_slots : length w.guardians ≡ 3
  pub slots : All IsSlot w.guardians
  pub rotation_ok : IsRotation w.guardians w.rotation
