-- ===== src/Kora/Confirm.antt =====
-- `confirm`: the polling of a signature's status.
use enclavekit_anchor.Common.{
  ℕ, zero, suc, ◌+◌, ◌<◌, ◌≤◌, Bool, true, false, ◌≡◌, ◌⊎◌, inl, inr, refl, bytes_eq, ◌||◌,
  Bool-cases, Option-cases, ltb, if◌then◌else◌, arith,
}
use mathlib.Core.Option.{Option, none, some}
use enclavekit_anchor.Vectors.Text.{Text, codes, Value}

-- `statuses["value"][0]` where it is not null.
pub record Status : Type 0 where
  pub err : Option Value
  pub confirmation_status : Option Text

pub data Confirmation : Type 0 where
  confirmed call_failed failed not_confirmed : Confirmation

-- `matches!(.., Some("confirmed" | "finalized"))`
unfoldable pub is_settled : Option Text → Bool
is_settled none = false
is_settled (some s) = bytes_eq s (codes "confirmed") || bytes_eq s (codes "finalized")

-- What a status, by its two fields, answers.
unfoldable pub answer_of : Option Value → Option Text → Option Confirmation
unfolding is_settled
answer_of (some error) s = some Confirmation.failed
answer_of none s = if is_settled s then some Confirmation.confirmed else none

-- What one round makes of the reply: an answer, or none, to sleep and go on. The reply is `none` where
-- the call fails, and `some none` where the status is null.
unfoldable pub round : Option (Option Status) → Option Confirmation
unfolding answer_of
round none = some Confirmation.call_failed
round (some none) = none
round (some (some status)) = answer_of status.err status.confirmation_status

abbrev pub answer_or : Option Confirmation → Confirmation → Confirmation
answer_or (some c) later = c
answer_or none later = later

-- The rounds that are left, from round `i` on.
unfoldable pub rounds_from : (ℕ → Option (Option Status)) → ℕ → ℕ → Confirmation
unfolding round
rounds_from replies i zero = Confirmation.not_confirmed
rounds_from replies i (suc n) = answer_or (round (replies i)) (rounds_from replies (suc i) n)

unfoldable pub confirm : (ℕ → Option (Option Status)) → Confirmation
unfolding rounds_from
confirm replies = rounds_from replies 0 60

-- Round `i` answers `c`, and no round from `from` before it answers.
abbrev pub IsFirstAnswer : (ℕ → Option (Option Status)) → ℕ → ℕ → Confirmation → Type 0
IsFirstAnswer replies from i c =
    (round (replies i) ≡ some c) × ((j : ℕ) → from ≤ j → j < i → round (replies j) ≡ none)

-- A round from `from` on that is not `from` comes later.
silent_too :
    (replies : ℕ → Option (Option Status)) (from : ℕ) (j : ℕ)
    → round (replies from) ≡ none
    → from ≤ j
    → (suc from ≤ j → round (replies j) ≡ none)
    → round (replies j) ≡ none
silent_too replies from j silent lo later = elim (Bool-cases (ltb from j)) [
  | inl before ↦ later (ltb→lt from j before)
  | inr same ↦ rw (here from j lo same) at silent
]
  where
    ltb→lt : (a b : ℕ) → ltb a b ≡ true → suc a ≤ b
    ltb→lt a b h = ground arith

    here : (a b : ℕ) → a ≤ b → ltb a b ≡ false → a ≡ b
    here a b lo h = ground arith

rounds_from_answers :
    (replies : ℕ → Option (Option Status)) (from n : ℕ)
    → ((i : ℕ) × (c : Confirmation) × (from ≤ i)
        × (i < from + n)
        × IsFirstAnswer replies from i c
        × (rounds_from replies from n ≡ c))
      ⊎ (((j : ℕ) → from ≤ j → j < from + n → round (replies j) ≡ none)
          × (rounds_from replies from n ≡ Confirmation.not_confirmed))
unfolding rounds_from
rounds_from_answers replies from zero = inr (λ j lo hi. absurd (omega arith), refl)
rounds_from_answers replies from (suc n) = elim (Option-cases (round (replies from))) [
  | inl silent ↦ elim (rounds_from_answers replies (suc from) n) [
    | inl (i, c, lo, hi, (e, before), got) ↦ inl (
      i,
      c,
      omega arith,
      omega arith,
      (e, λ j from_j j_i. silent_too replies from j silent from_j λ later. before j later j_i),
      rw silent got,
    )
    | inr (all, got) ↦ inr (
      λ j lo hi. silent_too replies from j silent lo λ later. all j later (omega arith),
      rw silent got,
    )
  ]
  | inr (c, e) ↦
      inl (from, c, omega arith, omega arith, (e, λ j lo hi. absurd (omega arith)), rw e refl)
]

-- The polling ends within 60 rounds: with the answer of the first round that has one, or, where none
-- of the 60 has, with the error that the transaction is not confirmed.
pub confirm_answers :
    (replies : ℕ → Option (Option Status))
    → ((i : ℕ) × (c : Confirmation) × (i < 60)
        × IsFirstAnswer replies 0 i c
        × (confirm replies ≡ c))
      ⊎ (((j : ℕ) → j < 60 → round (replies j) ≡ none)
          × (confirm replies ≡ Confirmation.not_confirmed))
unfolding confirm
confirm_answers replies = elim (rounds_from_answers replies 0 60) [
  | inl (i, c, _, below, first, got) ↦ inl (i, c, below, first, got)
  | inr (all, got) ↦ inr (λ j below. all j (omega arith) below, got)
]
