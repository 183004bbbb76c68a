-- ===== src/Program/State/Account/Slots.antt =====
-- The guardian slots within the account: their sizes, and where slot `i` stands.
use enclavekit_anchor.Common.{
  ℕ, zero, suc, ◌+◌, ◌*◌, Bytes, List, [], ◌∷◌, ◌++◌, length, drop, get_elem?, All, ◌≡◌, refl, ap,
  ◌∙◌, subst, arith, length-append, drop_past,
}
use mathlib.Core.List.{append_assoc}
use mathlib.Core.Option.{some}
use enclavekit_anchor.Program.State.{GuardianSlot}
use enclavekit_anchor.Program.State.Account.{slot_bytes, slots_bytes, IsSlotSized}

some_eq : (s t : GuardianSlot) → some s ≡ some t → s ≡ t
some_eq s t e = cc

length-slot_bytes : (slot : GuardianSlot) → IsSlotSized slot → length (slot_bytes slot) ≡ 66
unfolding slot_bytes
length-slot_bytes slot h =
    omega (arith, length-append slot.key slot.rp_id_hash, h.key_len, h.rp_id_hash_len)

pub length-slots_bytes :
    (slots : List GuardianSlot)
    → All IsSlotSized slots
    → length (slots_bytes slots) ≡ length slots * 66
unfolding slots_bytes
length-slots_bytes [] h = refl
length-slots_bytes (slot ∷ slots) (sized, h) = omega (
  arith,
  length-append (slot_bytes slot) (slots_bytes slots),
  length-slot_bytes slot sized,
  length-slots_bytes slots h,
)

slots_bytes-cons :
    (slot : GuardianSlot) (slots : List GuardianSlot) (rest : Bytes)
    → slots_bytes (slot ∷ slots) ++ rest ≡ slot_bytes slot ++ (slots_bytes slots ++ rest)
unfolding slots_bytes
slots_bytes-cons slot slots rest = append_assoc (slot_bytes slot) (slots_bytes slots) rest

-- What stands from slot `i` on: the slot, then the rest.
pub slot_found :
    (slots : List GuardianSlot) (rest : Bytes) (i : ℕ) (slot : GuardianSlot)
    → All IsSlotSized slots
    → get_elem? slots i ≡ some slot
    → (after : Bytes) × (drop (i * 66) (slots_bytes slots ++ rest) ≡ slot_bytes slot ++ after)
      × IsSlotSized slot
slot_found [] rest i slot h e = cc
slot_found (s ∷ slots) rest zero slot (sized, h) e =
    let same = some_eq s slot e in
    (
      slots_bytes slots ++ rest,
      slots_bytes-cons s slots rest
          ∙ ap (λ (t : GuardianSlot). slot_bytes t ++ (slots_bytes slots ++ rest)) same,
      subst IsSlotSized same sized,
    )
slot_found (s ∷ slots) rest (suc i) slot (sized, h) e =
    let (after, found, fits) = slot_found slots rest i slot h e in
    let next : suc i * 66 ≡ 66 + i * 66 = omega arith in
    (
      after,
      ap (λ (n : ℕ). drop n (slots_bytes (s ∷ slots) ++ rest)) next
          ∙ ap (drop (66 + i * 66)) (slots_bytes-cons s slots rest)
          ∙ drop_past 66 (i * 66) (slot_bytes s) (slots_bytes slots ++ rest)
              (length-slot_bytes s sized)
          ∙ found,
      fits,
    )
