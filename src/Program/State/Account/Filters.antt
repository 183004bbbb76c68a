-- ===== src/Program/State/Account/Filters.antt =====
-- The account filters by which a device finds the wallets that name its key (README.md, State
-- account), against the wallet's own fields.
use enclavekit_anchor.Common.{
  ℕ, zero, suc, ◌<◌, Bytes, Bool, true, false, List, [], ◌∷◌, ◌++◌, length, take, drop, get_elem?,
  ◌≡◌, ◌↔◌, refl, sym, ap, ◌∙◌, arith, take_prefix, Option-cases, inl, inr,
}
use mathlib.Core.List.{append_assoc}
use mathlib.Core.Option.{some}
use enclavekit_anchor.Encoding.Layout.{rotation_offset, guardian_kind_offset}
use enclavekit_anchor.Program.State.{
  SmartWallet, GuardianSlot, GuardianKind, is_p256, p256_guardian,
}
use enclavekit_anchor.Program.State.Guardians.{p256_guardian_first, p256_guardian_none}
use enclavekit_anchor.Program.State.Account.{
  kind_byte, bool_byte, slot_bytes, IsSized, AccountCodec,
}
use enclavekit_anchor.Program.State.Account.Fields.{at_slot, at_rotation_bytes}

get_elem?-lt {ℓ} :
    {A : Type ℓ} (xs : List A) (i : ℕ) → i < length xs → (x : A) × (get_elem? xs i ≡ some x)
get_elem?-lt [] i h = absurd (omega arith)
get_elem?-lt (x ∷ xs) zero h = (x, refl)
get_elem?-lt (x ∷ xs) (suc i) h = get_elem?-lt xs i (omega arith)

lt-get_elem? {ℓ} :
    {A : Type ℓ} (xs : List A) (i : ℕ) (x : A) → get_elem? xs i ≡ some x → i < length xs
lt-get_elem? [] i x e = cc
lt-get_elem? (y ∷ xs) zero x e = omega arith
lt-get_elem? (y ∷ xs) (suc i) x e = omega (arith, lt-get_elem? xs i x e)

-- The byte 1 marks a P-256 slot, and no other.
kind_byte_one : (k : GuardianKind) → kind_byte k ≡ 1 → is_p256 k ≡ true
unfolding kind_byte
kind_byte_one GuardianKind.none e = absurd (omega arith)
kind_byte_one GuardianKind.p256 e = refl
kind_byte_one GuardianKind.web_authn e = absurd (omega arith)

p256_kind_byte : (k : GuardianKind) → is_p256 k ≡ true → kind_byte k ≡ 1
unfolding kind_byte
p256_kind_byte GuardianKind.none e = cc
p256_kind_byte GuardianKind.p256 e = refl
p256_kind_byte GuardianKind.web_authn e = cc

bool_byte_one : (b : Bool) → bool_byte b ≡ 1 → b ≡ true
unfolding bool_byte
bool_byte_one false e = absurd (omega arith)
bool_byte_one true e = refl

true_byte : bool_byte true ≡ 1
unfolding bool_byte
true_byte = refl

cons_parts : (x y : ℕ) (xs ys : Bytes) → x ∷ xs ≡ y ∷ ys → (x ≡ y) × (xs ≡ ys)
cons_parts x y xs ys e = (cc, cc)

module _ (c : AccountCodec) (w : SmartWallet) (h : IsSized w) (key : Bytes) where
  slot_prefix :
      (i : ℕ) (slot : GuardianSlot)
      → get_elem? w.guardians i ≡ some slot
      → take 34 (drop (guardian_kind_offset i) (c.try_serialize w)) ≡ kind_byte slot.kind ∷ slot.key
  unfolding guardian_kind_offset slot_bytes
  slot_prefix i slot e =
      let (after, found, fits) = at_slot c w h i slot e in
      ap (take 34) found
      ∙ ap (λ (t : Bytes). kind_byte slot.kind ∷ take 33 t)
          (append_assoc slot.key slot.rp_id_hash after)
      ∙ ap (λ (t : Bytes). kind_byte slot.kind ∷ t)
          (take_prefix 33 slot.key (slot.rp_id_hash ++ after) fits.key_len)

  named_of_bytes :
      (i : ℕ)
      → i < 3
      → take 34 (drop (guardian_kind_offset i) (c.try_serialize w)) ≡ 1 ∷ key
      → (j : ℕ) × (p256_guardian w key ≡ some j)
  named_of_bytes i below e =
      let (slot, at) = get_elem?-lt w.guardians i (omega (arith, h.guardians_len)) in
      let (kind, same) = cons_parts _ _ _ _ (sym (slot_prefix i slot at) ∙ e) in
      elim (Option-cases (p256_guardian w key)) [
        | inl unnamed ↦
            absurd (p256_guardian_none w key unnamed i slot at (kind_byte_one slot.kind kind, same))
        | inr found ↦ found
      ]

  bytes_of_named :
      (j : ℕ)
      → p256_guardian w key ≡ some j
      → (i : ℕ) × (i < 3) × (take 34 (drop (guardian_kind_offset i) (c.try_serialize w)) ≡ 1 ∷ key)
  bytes_of_named j e =
      let (slot, at, (kind, same), _) = p256_guardian_first w key j e in
      (
        j,
        omega (arith, lt-get_elem? w.guardians j slot at, h.guardians_len),
        slot_prefix j slot at ∙ cc (p256_kind_byte slot.kind kind, same),
      )

  -- A wallet of the declared sizes names the key as a P-256 guardian exactly when, in one of its
  -- three slots, the account has the byte 1 at the slot's offset and then the key.
  pub guardian_filter :
      ((i : ℕ) × (i < 3) × (take 34 (drop (guardian_kind_offset i) (c.try_serialize w)) ≡ 1 ∷ key))
      ↔ ((j : ℕ) × (p256_guardian w key ≡ some j))
  guardian_filter =
      (λ found. named_of_bytes found.0 found.1 found.2, λ named. bytes_of_named named.0 named.1)

  -- A guardian's proposal to move a wallet of the declared sizes to the key is pending exactly when
  -- the account has the byte 1 at `rotation_offset` and then the key.
  pub rotation_filter :
      (take 34 (drop rotation_offset (c.try_serialize w)) ≡ 1 ∷ key)
      ↔ ((w.rotation.pending ≡ true) × (w.rotation.proposal.new_key ≡ key))
  rotation_filter = (
    λ e.
        let (one, same) = cons_parts _ _ _ _ (sym (at_rotation_bytes c w h) ∙ e) in
        (bool_byte_one w.rotation.pending one, same),
    λ p. at_rotation_bytes c w h ∙ cc (ap bool_byte p.0, true_byte, p.1),
  )
