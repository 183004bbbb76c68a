-- ===== src/Vectors/States/Matched.antt =====
-- The vectors of state.json: each wallet's data reads, at the offsets listed, as the fields listed.
use enclavekit_anchor.Common.{
  ℕ, zero, suc, ◌+◌, Bytes, List, [], ◌∷◌, length, map, take, drop, get_elem?, ◌≡◌, refl, ap, ◌∙◌,
  subst, arith, take_prefix, from_le_bytes, i64_bits,
}
use mathlib.Core.Option.{some}
use enclavekit_anchor.Encoding.Wallet
use enclavekit_anchor.Program.State.{SmartWallet, GuardianSlot, GuardianKind}
use enclavekit_anchor.Program.State.Account.{kind_byte, bool_byte, state_bytes, IsSized}
use enclavekit_anchor.Program.State.Account.Fields.{state_fields, slot_fields}
use enclavekit_anchor.Vectors.Text.{Text}
use enclavekit_anchor.Vectors.Inputs
use enclavekit_anchor.Vectors.Tools.{Tools}
use enclavekit_anchor.Vectors.Key.{wallet_id}
use enclavekit_anchor.Vectors.States.{
  GuardianSlotOffsets, GuardianSlotFields, StateOffsets, StateFields, NamedStateVector, StateVector,
  kind_text, slot_fields_from, state_fields_from, slot_offsets, state_offsets,
}

-- The data shows the slot listed, at the offsets listed.
abbrev pub IsSlotShown : Bytes → GuardianSlotOffsets → GuardianSlotFields → Type 0
IsSlotShown b o f =
    ((k : GuardianKind) × (f.kind ≡ kind_text k) × (take 1 (drop o.kind b) ≡ kind_byte k ∷ []))
    × (take 33 (drop o.key b) ≡ f.key.bytes)
    × (take 32 (drop o.rp_id_hash b) ≡ f.rp_id_hash.bytes)

-- As many slots as offsets, each shown.
abbrev pub AreSlotsShown : Bytes → List GuardianSlotOffsets → List GuardianSlotFields → Type 0
AreSlotsShown b [] [] = Unit {0}
AreSlotsShown b [] (f ∷ fs) = ⊥
AreSlotsShown b (o ∷ os) [] = ⊥
AreSlotsShown b (o ∷ os) (f ∷ fs) = IsSlotShown b o f × AreSlotsShown b os fs

abbrev pub IsShown : Bytes → StateOffsets → StateFields → Type 0
IsShown b o f =
    (take 32 (drop o.wallet_id b) ≡ f.wallet_id.bytes)
    × (take 33 (drop o.active_key b) ≡ f.active_key.bytes)
    × (from_le_bytes (take 8 (drop o.nonce b)) ≡ f.nonce)
    × (take 1 (drop o.attested b) ≡ bool_byte f.attested ∷ [])
    × AreSlotsShown b o.guardians f.guardians
    × (take 1 (drop o.rotation.pending b) ≡ bool_byte f.rotation.pending ∷ [])
    × (take 33 (drop o.rotation.new_key b) ≡ f.rotation.new_key.bytes)
    × (from_le_bytes (take 8 (drop o.rotation.proposed_at b)) ≡ i64_bits f.rotation.proposed_at)
    × (take 1 (drop o.rotation.proposed_by b) ≡ f.rotation.proposed_by ∷ [])
    × (take 1 (drop o.state_bump b) ≡ f.state_bump ∷ [])
    × (take 1 (drop o.vault_bump b) ≡ f.vault_bump ∷ [])

-- The account of a listed state: its discriminator, its size, and its fields.
pub record IsListed (v : StateVector) (s : NamedStateVector) : Type 0 where
  pub discriminated : take 8 s.data_bytes.bytes ≡ v.discriminator.bytes
  pub sized : length s.data_bytes.bytes ≡ v.size
  pub shown : IsShown s.data_bytes.bytes v.offsets s.fields

-- The slots' offsets, one after another.
unfoldable offsets_from : ℕ → ℕ → List GuardianSlotOffsets
offsets_from i zero = []
offsets_from i (suc n) = slot_offsets i ∷ offsets_from (suc i) n

module _ (t : Tools) (w : SmartWallet) (h : IsSized w) where
  abbrev b : Bytes
  b = t.account.try_serialize w

  slot_shown :
      (i : ℕ) (slot : GuardianSlot)
      → get_elem? w.guardians i ≡ some slot
      → IsSlotShown b (slot_offsets i) (slot_fields_from slot)
  unfolding slot_offsets slot_fields_from
  slot_shown i slot e =
      let (kind, key, hash) = slot_fields t.account w h i slot e in
      ((slot.kind, refl, kind), key, hash)

  slots_shown :
      (slots : List GuardianSlot) (i : ℕ)
      → ((j : ℕ) (slot : GuardianSlot)
          → get_elem? slots j ≡ some slot
          → get_elem? w.guardians (i + j) ≡ some slot)
      → AreSlotsShown b (offsets_from i (length slots)) (map slot_fields_from slots)
  unfolding offsets_from
  slots_shown [] i inside = tt
  slots_shown (s ∷ slots) i inside = (
    slot_shown i s (ap (get_elem? w.guardians) (omega arith) ∙ inside 0 s refl),
    slots_shown slots (suc i)
        λ j slot e. ap (get_elem? w.guardians) (omega arith) ∙ inside (suc j) slot e,
  )

  all_slots_shown :
      AreSlotsShown b (map slot_offsets (0 ∷ 1 ∷ 2 ∷ [])) (map slot_fields_from w.guardians)
  unfolding offsets_from
  all_slots_shown =
      subst (λ (n : ℕ). AreSlotsShown b (offsets_from 0 n) (map slot_fields_from w.guardians))
        h.guardians_len
        (slots_shown w.guardians 0 λ j slot e. ap (get_elem? w.guardians) (omega arith) ∙ e)

  discriminated : take 8 b ≡ t.account.discriminator
  unfolding state_bytes
  discriminated =
      rw (t.account.documented w h)
        (take_prefix 8 t.account.discriminator _ t.account.discriminator_size)

  shown : IsShown b state_offsets (state_fields_from w)
  unfolding state_offsets state_fields_from
  shown =
      let (_, id, key, nonce, attested, pending, new_key, at, by, state_bump, vault_bump) =
        state_fields t.account w h in
      (id, key, nonce, attested, all_slots_shown, pending, new_key, at, by, state_bump, vault_bump)
