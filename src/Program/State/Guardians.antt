-- ===== src/Program/State/Guardians.antt =====
-- The guardian that `p256_guardian` finds is one that the wallet names, in the first such slot.
use enclavekit_anchor.Common.{
  ℕ, zero, suc, ◌+◌, ◌<◌, Bytes, bytes_eq, bytes_eq→eq, bytes_eq_refl, true, false, ◌&&◌,
  Bool-cases, inl, inr, List, [], ◌∷◌, get_elem?, ◌≡◌, refl, arith,
}
use mathlib.Core.Option.{Option}
use enclavekit_anchor.Program.State.{
  GuardianSlot, is_p256, SmartWallet, position_from, p256_guardian,
}

-- `slot` is an enabled P-256 guardian with this key.
abbrev pub Names : Bytes → GuardianSlot → Type 0
Names key slot = (is_p256 slot.kind ≡ true) × (slot.key ≡ key)

-- Slot `i` names the key, and no slot before it does.
abbrev pub IsFirstNamed : Bytes → ℕ → List GuardianSlot → Type 0
IsFirstNamed key i slots =
    (slot : GuardianSlot) × (get_elem? slots i ≡ Option.some slot)
    × Names key slot
    × ((j : ℕ) (earlier : GuardianSlot)
        → j < i
        → get_elem? slots j ≡ Option.some earlier
        → ¬ Names key earlier)

slot_test_sound :
    (key : Bytes) (slot : GuardianSlot)
    → (is_p256 slot.kind && bytes_eq slot.key key) ≡ true
    → Names key slot
slot_test_sound key slot h = ground (arith, bytes_eq→eq slot.key key)

slot_test_complete :
    (key : Bytes) (slot : GuardianSlot)
    → (is_p256 slot.kind && bytes_eq slot.key key) ≡ false
    → ¬ Names key slot
slot_test_complete key slot h (kind, same) = ground (arith, bytes_eq_refl key)

position_from_first :
    (key : Bytes) (k : ℕ) (slots : List GuardianSlot) (i : ℕ)
    → position_from key k slots ≡ Option.some i
    → (n : ℕ) × (i ≡ k + n) × IsFirstNamed key n slots
unfolding position_from
position_from_first key k [] i h = cc
position_from_first key k (slot ∷ slots) i h =
    elim (Bool-cases (is_p256 slot.kind && bytes_eq slot.key key)) [
      | inl here ↦ (
        0,
        omega (arith, some_eq k i (rw here at h)),
        (slot, refl, slot_test_sound key slot here, λ j earlier lt e. absurd (omega arith)),
      )
      | inr later ↦
          let (n, e, (found, at, names, first)) =
            position_from_first key (suc k) slots i (rw later at h) in
          (
            suc n,
            omega arith,
            (found, at, names, step_first n first (slot_test_complete key slot later)),
          )
    ]
  where
    some_eq : (a b : ℕ) → Option.some a ≡ Option.some b → a ≡ b
    some_eq a b e = cc

    step_first :
        (n : ℕ)
        → ((j : ℕ) (earlier : GuardianSlot)
            → j < n
            → get_elem? slots j ≡ Option.some earlier
            → ¬ Names key earlier)
        → ¬ Names key slot
        → (j : ℕ) (earlier : GuardianSlot) → j < suc n
        → get_elem? (slot ∷ slots) j ≡ Option.some earlier
        → ¬ Names key earlier
    step_first n first head zero earlier lt e = λ names. head (names_of slot earlier e names)
      where
        names_of : (a b : GuardianSlot) → Option.some a ≡ Option.some b → Names key b → Names key a
        names_of a b e names = ground arith
    step_first n first head (suc j) earlier lt e = first j earlier (omega arith) e

-- The slot that is found holds an enabled P-256 guardian with the key, and no earlier slot does.
pub p256_guardian_first :
    (w : SmartWallet) (key : Bytes) (i : ℕ)
    → p256_guardian w key ≡ Option.some i
    → IsFirstNamed key i w.guardians
unfolding p256_guardian
p256_guardian_first w key i h =
    let (n, e, found) = position_from_first key 0 w.guardians i h in
    let same : i ≡ n = omega arith in rw same found

position_from_none :
    (key : Bytes) (k : ℕ) (slots : List GuardianSlot)
    → position_from key k slots ≡ Option.none
    → (j : ℕ) (slot : GuardianSlot) → get_elem? slots j ≡ Option.some slot
    → ¬ Names key slot
unfolding position_from
position_from_none key k [] h j slot e = cc
position_from_none key k (s ∷ slots) h zero slot e =
    elim (Bool-cases (is_p256 s.kind && bytes_eq s.key key)) [
      | inl here ↦ absurd (none_some (rw here at h))
      | inr later ↦ rw (some_slot s slot e) at (slot_test_complete key s later)
    ]
  where
    none_some : ¬ (Option.some k ≡ Option.none)
    none_some e = cc

    some_slot : (a b : GuardianSlot) → Option.some a ≡ Option.some b → a ≡ b
    some_slot a b e = cc
position_from_none key k (s ∷ slots) h (suc j) slot e =
    elim (Bool-cases (is_p256 s.kind && bytes_eq s.key key)) [
      | inl here ↦ absurd (none_some (rw here at h))
      | inr later ↦ position_from_none key (suc k) slots (rw later at h) j slot e
    ]
  where
    none_some : ¬ (Option.some k ≡ Option.none)
    none_some e = cc

-- No slot is found only where no slot is an enabled P-256 guardian with the key.
pub p256_guardian_none :
    (w : SmartWallet) (key : Bytes)
    → p256_guardian w key ≡ Option.none
    → (j : ℕ) (slot : GuardianSlot) → get_elem? w.guardians j ≡ Option.some slot
    → ¬ Names key slot
unfolding p256_guardian
p256_guardian_none w key h = position_from_none key 0 w.guardians h
