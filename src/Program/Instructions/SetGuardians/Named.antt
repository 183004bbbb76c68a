-- ===== src/Program/Instructions/SetGuardians/Named.antt =====
-- Whom a wallet names after new guardians.
use enclavekit_anchor.Common.{
  ℕ, zero, suc, ◌+◌, ◌<◌, List, [], ◌∷◌, map, Bytes, bytes_eq, bytes_eq→eq, bytes_eq_refl, Bool,
  Bool-cases, inl, inr, true, false, ◌&&◌, get_elem?, ◌≡◌, ◌≢◌, ◌↔◌, sym, ap, subst, ◌∙◌, arith,
}
use mathlib.Core.Bool.{false≢true}
use mathlib.Core.Option.{Option, some-injective}
use enclavekit_anchor.Program.Errors.{ok}
use enclavekit_anchor.Program.State.{
  SmartWallet, Guardian, is_p256, guardian_slot_from, position_from, p256_guardian,
}
use enclavekit_anchor.Program.Events.{GuardiansSet}
use enclavekit_anchor.Program.Platform.{Sysvars, Platform, Bank}
use enclavekit_anchor.Program.Authorization.{Authorization}
use enclavekit_anchor.Program.Instructions.Outcome.{Outcome, Bumps}
use enclavekit_anchor.Program.Instructions.SetGuardians.{SetGuardians, any_web_authn, set_guardians}
use enclavekit_anchor.Program.Instructions.SetGuardians.Replaced.{set_guardians-IsReplaced}

-- The list has this P-256 guardian at place `i`, and not before.
abbrev pub IsFirstListed : Bytes → ℕ → List Guardian → Type 0
IsFirstListed key i gs =
    (get_elem? gs i ≡ Option.some (Guardian.p256 key))
    × ((j : ℕ) → j < i → get_elem? gs j ≢ Option.some (Guardian.p256 key))

abbrev slot_test : Bytes → Guardian → Bool
slot_test key g = is_p256 (guardian_slot_from g).kind && bytes_eq (guardian_slot_from g).key key

slot_test-listed : (key : Bytes) (g : Guardian) → slot_test key g ≡ true → g ≡ Guardian.p256 key
unfolding guardian_slot_from
slot_test-listed key Guardian.none h = absurd (false≢true h)
slot_test-listed key (Guardian.p256 k) h = ap Guardian.p256 (bytes_eq→eq k key h)
slot_test-listed key (Guardian.web_authn k) h = absurd (false≢true h)

listed-slot_test : (key : Bytes) (g : Guardian) → g ≡ Guardian.p256 key → slot_test key g ≡ true
unfolding guardian_slot_from
listed-slot_test key g e = rw e (bytes_eq_refl key)

no_earlier :
    (key : Bytes) (g : Guardian) (gs : List Guardian) (n : ℕ)
    → slot_test key g ≡ false
    → ((j : ℕ) → j < n → get_elem? gs j ≢ Option.some (Guardian.p256 key))
    → (j : ℕ) → j < suc n
    → get_elem? (g ∷ gs) j ≢ Option.some (Guardian.p256 key)
no_earlier key g gs n other first zero lt e =
    false≢true (sym other ∙ listed-slot_test key g (some-injective _ _ e))
no_earlier key g gs n other first (suc j) lt e = first j (omega arith) e

some_eq : (a b : ℕ) → Option.some a ≡ Option.some b → a ≡ b
some_eq a b e = some-injective _ _ e

found_listed :
    (key : Bytes) (k : ℕ) (gs : List Guardian) (i : ℕ)
    → position_from key k (map guardian_slot_from gs) ≡ Option.some i
    → (n : ℕ) × (i ≡ k + n) × IsFirstListed key n gs
unfolding position_from
found_listed key k [] i h = cc
found_listed key k (g ∷ gs) i h = elim (Bool-cases (slot_test key g)) [
  | inl here ↦ (
    0,
    omega (arith, some_eq k i (rw here at h)),
    (ap Option.some (slot_test-listed key g here), λ j lt. absurd (omega arith)),
  )
  | inr other ↦
      let (n, e, (at, first)) = found_listed key (suc k) gs i (rw other at h) in
      (suc n, omega arith, (at, no_earlier key g gs n other first))
]

listed_found :
    (key : Bytes) (k : ℕ) (gs : List Guardian) (n : ℕ)
    → IsFirstListed key n gs
    → position_from key k (map guardian_slot_from gs) ≡ Option.some (k + n)
unfolding position_from
listed_found key k [] n (at, first) = cc
listed_found key k (g ∷ gs) zero (at, first) =
    rw (listed-slot_test key g (some-injective _ _ at)) (ap Option.some (omega arith))
listed_found key k (g ∷ gs) (suc n) (at, first) = elim (Bool-cases (slot_test key g)) [
  | inl here ↦ absurd (first 0 (omega arith) (ap Option.some (slot_test-listed key g here)))
  | inr other ↦ rw other (
      listed_found key (suc k) gs n (at, λ j lt. first (suc j) (omega arith))
      ∙ ap Option.some (omega arith))
]

no_passkey :
    (gs : List Guardian) (i : ℕ) (key : Bytes)
    → any_web_authn gs ≡ false
    → get_elem? gs i ≢ Option.some (Guardian.web_authn key)
unfolding any_web_authn
no_passkey [] i key h e = cc
no_passkey (Guardian.none ∷ gs) zero key h e = cc
no_passkey (Guardian.p256 k ∷ gs) zero key h e = cc
no_passkey (Guardian.web_authn k ∷ gs) zero key h e = absurd (false≢true (sym h))
no_passkey (Guardian.none ∷ gs) (suc i) key h e = no_passkey gs i key h e
no_passkey (Guardian.p256 k ∷ gs) (suc i) key h e = no_passkey gs i key h e
no_passkey (Guardian.web_authn k ∷ gs) (suc i) key h e = absurd (false≢true (sym h))

module _ (p : Platform) (sys : Sysvars) (self : SetGuardians) (auth : Authorization)
    (guardians : List Guardian) (relayer_fee : ℕ) (bumps : Bumps) (bank : Bank) where
  -- New guardians that succeed have no passkey among them. The wallet then names a key, as the guardian
  -- of a slot, exactly if the list has that P-256 key at the slot's place and not before: nobody of the
  -- old list is left. No rotation is pending, and the event tells the list.
  pub set_guardians_names :
      (o : Outcome GuardiansSet)
      → set_guardians p sys self auth guardians relayer_fee bumps bank ≡ ok o
      → ((i : ℕ) (key : Bytes) → get_elem? guardians i ≢ Option.some (Guardian.web_authn key))
        × ((key : Bytes) (i : ℕ)
            → (p256_guardian o.wallet key ≡ Option.some i) ↔ IsFirstListed key i guardians)
        × (o.wallet.rotation.pending ≡ false)
        × (o.event.guardians ≡ guardians)
  unfolding p256_guardian
  set_guardians_names o h =
      let t = set_guardians-IsReplaced p sys self auth guardians relayer_fee bumps bank o h in
      let slots = ap (λ (w : SmartWallet). w.guardians) t.written in
      (
        λ i key. no_passkey guardians i key t.no_web_authn,
        λ key i. (
          λ found.
              let (n, e, listed) =
                found_listed key 0 guardians i (ap (position_from key 0) (sym slots) ∙ found) in
              subst (λ (m : ℕ). IsFirstListed key m guardians) (omega (arith, e)) listed,
          λ listed.
              ap (position_from key 0) slots
              ∙ listed_found key 0 guardians i listed
              ∙ ap Option.some (omega arith),
        ),
        ap (λ (w : SmartWallet). w.rotation.pending) t.written,
        ap (λ (e : GuardiansSet). e.guardians) t.told,
      )
