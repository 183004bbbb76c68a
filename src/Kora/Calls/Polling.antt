-- ===== src/Kora/Calls/Polling.antt =====
-- The polling over the network against the polling of given statuses, `Kora.Confirm`.
use enclavekit_anchor.Common.{
  ℕ, zero, suc, ◌<◌, ltb, true, false, Bool-cases, ◌∷◌, ◌≡◌, ◌⊎◌, ◌↔◌, inl, inr, refl, sym, ap, ◌∙◌,
  arith,
}
use mathlib.Core.Option
use mathlib.Core.Option.{Option, none, some, some-injective}
use enclavekit_anchor.Vectors.Text.{Text, codes, Value}
use enclavekit_anchor.Vectors.Tools.{Tools}
use enclavekit_anchor.Kora.Confirm
use enclavekit_anchor.Kora.Confirm.{
  Status, Confirmation, round, answer_or, rounds_from, IsFirstAnswer, confirm_answers,
}
use enclavekit_anchor.Kora.Crates.{Crates}
use enclavekit_anchor.Kora.Rpc.{Request, Log, Net, Run, proceed, body, answer, call}
use enclavekit_anchor.Kora.Calls.Settled.{
  HasStatus, IsConfirmed, IsWaiting, read-HasStatus, HasStatus-read, read-IsConfirmed,
  IsConfirmed-read, read-IsWaiting, IsWaiting-read,
}
use enclavekit_anchor.Kora.Calls.{status_of, settle, status_params, poll, confirm}

-- What the caller of `confirm` sees.
abbrev pub outcome : Confirmation → Option (Unit {0})
outcome Confirmation.confirmed = some tt
outcome Confirmation.call_failed = none
outcome Confirmation.failed = none
outcome Confirmation.not_confirmed = none

settle-answer_or :
    (o : Option Confirmation) (later : Run (Unit {0})) (last : Confirmation) (log : Log)
    → (later log).0 ≡ outcome last
    → (settle o later log).0 ≡ outcome (answer_or o last)
settle-answer_or none later last log h = h
settle-answer_or (some Confirmation.confirmed) later last log h = refl
settle-answer_or (some Confirmation.call_failed) later last log h = refl
settle-answer_or (some Confirmation.failed) later last log h = refl
settle-answer_or (some Confirmation.not_confirmed) later last log h = refl

-- A round over the network, from the reply it gets.
round-answer_or :
    (reply : Option Value) (later : Run (Unit {0})) (last : Confirmation) (log : Log)
    → (later log).0 ≡ outcome last
    → (proceed (reply, log) λ statuses. settle (round (some (status_of statuses))) later).0
      ≡ outcome (answer_or (round (Option.map status_of reply)) last)
unfolding round
round-answer_or none later last log h = refl
round-answer_or (some v) later last log h =
    settle-answer_or (round (some (status_of v))) later last log h

ltb→lt : (a b : ℕ) → ltb a b ≡ true → a < b
ltb→lt a b h = ground arith

failure : (o : Option (Unit {0})) → o ≡ none → o ≡ some tt → ⊥
failure o h k = cc

ltb→eq : (a b : ℕ) → ltb a b ≡ false → ltb b a ≡ false → a ≡ b
ltb→eq a b h k = ground arith

module _ (t : Tools) (c : Crates t) (net : Net) (rpc signature : Text) where
  abbrev status_request : Request
  status_request = record {
    url = rpc;
    method = codes "getSignatureStatuses";
    params = status_params t c net signature;
  }

  -- The log before round `i`.
  unfoldable pub asked : Log → ℕ → Log
  asked log zero = log
  asked log (suc i) = status_request ∷ asked log i

  -- The node's reply to round `i`.
  abbrev pub reply_at : Log → ℕ → Option Value
  reply_at log i =
      net (asked log i) rpc (body (codes "getSignatureStatuses") (status_params t c net signature))

  -- What round `i` reads.
  unfoldable pub replies : Log → ℕ → Option (Option Status)
  unfolding asked
  replies log i = Option.map status_of (answer (reply_at log i))

  poll-rounds_from :
      (log : Log) (i n : ℕ)
      → (poll t c net n rpc signature (asked log i)).0 ≡ outcome (rounds_from (replies log) i n)
  unfolding poll rounds_from replies asked call
  poll-rounds_from log i zero = refl
  poll-rounds_from log i (suc n) =
      round-answer_or _ (poll t c net n rpc signature) (rounds_from (replies log) (suc i) n)
        (asked log (suc i)) (poll-rounds_from log (suc i) n)

  pub confirm-confirm :
      (log : Log) → (confirm t c net rpc signature log).0 ≡ outcome (Confirm.confirm (replies log))
  unfolding confirm Confirm.confirm asked
  confirm-confirm log = poll-rounds_from log 0 60

  -- The outcome is the first answer's of the 60 rounds, and a failure without one.
  confirm_ends :
      (log : Log)
      → ((i : ℕ) × (answered : Confirmation) × (i < 60)
          × IsFirstAnswer (replies log) 0 i answered
          × ((confirm t c net rpc signature log).0 ≡ outcome answered))
        ⊎ (((j : ℕ) → j < 60 → round (replies log j) ≡ none)
            × ((confirm t c net rpc signature log).0 ≡ none))
  confirm_ends log = elim (confirm_answers (replies log)) [
    | inl (i, answered, below, first, got) ↦
        inl (i, answered, below, first, confirm-confirm log ∙ ap outcome got)
    | inr (silent, got) ↦ inr (silent, confirm-confirm log ∙ ap outcome got)
  ]

  confirmed-eq : (c : Confirmation) → outcome c ≡ some tt → c ≡ Confirmation.confirmed
  confirmed-eq Confirmation.confirmed h = refl
  confirmed-eq Confirmation.call_failed h = cc
  confirmed-eq Confirmation.failed h = cc
  confirmed-eq Confirmation.not_confirmed h = cc

  round-IsConfirmed :
      (log : Log) (i : ℕ)
      → round (replies log i) ≡ some Confirmation.confirmed
      → HasStatus (reply_at log i) IsConfirmed
  unfolding replies
  round-IsConfirmed log i h =
      read-HasStatus (reply_at log i) (some Confirmation.confirmed) IsConfirmed (λ e. cc) h
        read-IsConfirmed

  round-IsWaiting :
      (log : Log) (i : ℕ) → round (replies log i) ≡ none → HasStatus (reply_at log i) IsWaiting
  unfolding replies
  round-IsWaiting log i h =
      read-HasStatus (reply_at log i) none IsWaiting (λ e. cc) h read-IsWaiting

  IsConfirmed-round :
      (log : Log) (i : ℕ)
      → HasStatus (reply_at log i) IsConfirmed
      → round (replies log i) ≡ some Confirmation.confirmed
  unfolding replies
  IsConfirmed-round log i has =
      HasStatus-read (reply_at log i) (some Confirmation.confirmed) IsConfirmed has IsConfirmed-read

  IsWaiting-round :
      (log : Log) (i : ℕ) → HasStatus (reply_at log i) IsWaiting → round (replies log i) ≡ none
  unfolding replies
  IsWaiting-round log i has = HasStatus-read (reply_at log i) none IsWaiting has IsWaiting-read

  -- A round does not answer and stay silent.
  silent-answered :
      (log : Log) (i : ℕ) {C : Type 0} {o : Confirmation}
      → round (replies log i) ≡ none
      → round (replies log i) ≡ some o
      → C
  silent-answered log i silent answered = absurd (apart (sym silent ∙ answered))
    where
      apart : {o : Confirmation} → none ≡ some o → ⊥
      apart h = cc

  first_answers_eq :
      (log : Log) (i k : ℕ) (answered : Confirmation)
      → IsFirstAnswer (replies log) 0 i answered
      → round (replies log k) ≡ some Confirmation.confirmed
      → ((j : ℕ) → j < k → round (replies log j) ≡ none)
      → answered ≡ Confirmation.confirmed
  first_answers_eq log i k answered (e, before) confirmed waiting = elim (Bool-cases (ltb i k)) [
    | inl earlier ↦ silent-answered log i (waiting i (ltb→lt i k earlier)) e
    | inr not_earlier ↦ elim (Bool-cases (ltb k i)) [
      | inl later ↦ silent-answered log k (before k (omega arith) (ltb→lt k i later)) confirmed
      | inr not_later ↦ some-injective _ _ (
          sym e
          ∙ ap (λ (n : ℕ). round (replies log n)) (ltb→eq i k not_earlier not_later)
          ∙ confirmed)
    ]
  ]

  -- The polling of a signature succeeds exactly if the node's reply to one of its first 60 requests has
  -- no error, and a status without an error that says confirmed or finalized, while each reply before it
  -- has no error and a status, null perhaps, without an error that says neither.
  pub confirm_succeeds :
      (log : Log)
      → ((confirm t c net rpc signature log).0 ≡ some tt) ↔ (
          (i : ℕ) × (i < 60)
          × HasStatus (reply_at log i) IsConfirmed
          × ((j : ℕ) → j < i → HasStatus (reply_at log j) IsWaiting))
  confirm_succeeds log = (
    λ succeeded. elim (confirm_ends log) [
      | inl (i, answered, below, (e, before), got) ↦ (
        i,
        below,
        round-IsConfirmed log i (e ∙ ap some (confirmed-eq answered (sym got ∙ succeeded))),
        λ j earlier. round-IsWaiting log j (before j (omega arith) earlier),
      )
      | inr (_, got) ↦ absurd (failure _ got succeeded)
    ],
    λ (k, below, confirmed, waiting). elim (confirm_ends log) [
      | inl (i, answered, _, first, got) ↦
          got
          ∙ ap outcome (
              first_answers_eq log i k answered first (IsConfirmed-round log k confirmed)
                λ j earlier. IsWaiting-round log j (waiting j earlier))
      | inr (silent, _) ↦ silent-answered log k (silent k below) (IsConfirmed-round log k confirmed)
    ],
  )
