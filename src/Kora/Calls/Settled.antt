-- ===== src/Kora/Calls/Settled.antt =====
-- What the fields of a status answer.
use enclavekit_anchor.Common.{
  true, false, bytes_eq, bytes_eq→eq, Bool-cases, Option-cases, ◌⊎◌, inl, inr, ◌≡◌, ◌≢◌, refl, sym,
  ◌∙◌, subst,
}
use mathlib.Core.Bool.{false≢true}
use mathlib.Core.Option
use mathlib.Core.Option.{Option, none, some}
use enclavekit_anchor.Vectors.Text.{
  Text, codes, Value, null, boolean, text, number, other_number, array, object,
}
use enclavekit_anchor.Kora.Confirm.{Confirmation, is_settled, answer_of, round}
use enclavekit_anchor.Kora.Json.{as_str, at_name, at_index, get, non_null}
use enclavekit_anchor.Kora.Rpc.{result_of, answer}
use enclavekit_anchor.Kora.Calls.{status_in, status_of}

-- `statuses["value"][0]` of a reply.
abbrev pub status_value : Value → Value
status_value statuses = at_index (at_name statuses (codes "value")) 0

-- No error, and the text of one of the two commitments.
abbrev pub IsConfirmed : Value → Type 0
IsConfirmed status =
    (at_name status (codes "err") ≡ null)
    × ((at_name status (codes "confirmationStatus") ≡ text (codes "confirmed"))
        ⊎ (at_name status (codes "confirmationStatus") ≡ text (codes "finalized")))

-- No error, and neither text: a null status among them.
abbrev pub IsWaiting : Value → Type 0
IsWaiting status =
    (at_name status (codes "err") ≡ null)
    × (at_name status (codes "confirmationStatus") ≢ text (codes "confirmed"))
    × (at_name status (codes "confirmationStatus") ≢ text (codes "finalized"))

settled_text :
    (c : Value)
    → is_settled (as_str c) ≡ true
    → (c ≡ text (codes "confirmed")) ⊎ (c ≡ text (codes "finalized"))
unfolding is_settled as_str
settled_text (text x) h = elim (Bool-cases (bytes_eq x (codes "confirmed"))) [
  | inl same ↦ inl (rw (bytes_eq→eq x (codes "confirmed") same) refl)
  | inr other ↦ inr (rw (bytes_eq→eq x (codes "finalized") (rw other at h)) refl)
]
settled_text null h = absurd (false≢true h)
settled_text (boolean _) h = absurd (false≢true h)
settled_text (number _) h = absurd (false≢true h)
settled_text other_number h = absurd (false≢true h)
settled_text (array _) h = absurd (false≢true h)
settled_text (object _) h = absurd (false≢true h)

text_settled :
    (c : Value)
    → (c ≡ text (codes "confirmed")) ⊎ (c ≡ text (codes "finalized"))
    → is_settled (as_str c) ≡ true
unfolding is_settled as_str bytes_eq
text_settled c (inl e) = rw e refl
text_settled c (inr e) = rw e refl

non_null-none : (e : Value) → non_null e ≡ none → e ≡ null
unfolding non_null
non_null-none null h = refl
non_null-none (boolean _) h = cc
non_null-none (text _) h = cc
non_null-none (number _) h = cc
non_null-none other_number h = cc
non_null-none (array _) h = cc
non_null-none (object _) h = cc

-- A round that reads this status.
abbrev pub read_round : Value → Option Confirmation
read_round status = round (some (Option.map status_in (non_null status)))

-- A null status has no fields, so it answers as one whose fields are null.
read_fields :
    (s : Value)
    → read_round s
      ≡ answer_of
          (non_null (at_name s (codes "err")))
          (as_str (at_name s (codes "confirmationStatus")))
unfolding round non_null at_name answer_of as_str
read_fields null = refl
read_fields (boolean _) = refl
read_fields (text _) = refl
read_fields (number _) = refl
read_fields other_number = refl
read_fields (array _) = refl
read_fields (object _) = refl

answer_cases :
    (e c : Value)
    → ((e ≡ null) × (answer_of (non_null e) (as_str c) ≡ answer_of none (as_str c)))
      ⊎ ((e ≢ null) × (answer_of (non_null e) (as_str c) ≡ some Confirmation.failed))
unfolding answer_of non_null
answer_cases e c = elim (Option-cases (non_null e)) [
  | inl h ↦ inl (non_null-none e h, rw h refl)
  | inr (error, h) ↦
      inr (
        λ same. absurd (nothing (sym h ∙ subst (λ v. non_null v ≡ none) (sym same) refl)),
        rw h refl,
      )
]
  where
    nothing : {error : Value} → some error ≡ none → ⊥
    nothing h = cc

if_settled :
    (c : Option Text) → answer_of none c ≡ some Confirmation.confirmed → is_settled c ≡ true
unfolding answer_of
if_settled c h = elim (Bool-cases (is_settled c)) [
  | inl known ↦ known
  | inr known ↦ absurd (other (rw known at h))
]
  where
    other : none ≡ some Confirmation.confirmed → ⊥
    other h = cc

if_unsettled : (c : Option Text) → answer_of none c ≡ none → is_settled c ≡ false
unfolding answer_of
if_unsettled c h = elim (Bool-cases (is_settled c)) [
  | inl known ↦ absurd (other (rw known at h))
  | inr known ↦ known
]
  where
    other : some Confirmation.confirmed ≡ none → ⊥
    other h = cc

failed-confirmed : some Confirmation.failed ≡ some Confirmation.confirmed → ⊥
failed-confirmed h = cc

failed-none : some Confirmation.failed ≡ none → ⊥
failed-none h = cc

pub read-IsConfirmed : (s : Value) → read_round s ≡ some Confirmation.confirmed → IsConfirmed s
read-IsConfirmed s h =
    elim (answer_cases (at_name s (codes "err")) (at_name s (codes "confirmationStatus"))) [
      | inl (no_error, same) ↦
          (no_error, settled_text _ (if_settled _ (sym same ∙ sym (read_fields s) ∙ h)))
      | inr (_, failed) ↦ absurd (failed-confirmed (sym failed ∙ sym (read_fields s) ∙ h))
    ]

pub IsConfirmed-read : (s : Value) → IsConfirmed s → read_round s ≡ some Confirmation.confirmed
unfolding answer_of non_null
IsConfirmed-read s (no_error, settled) =
    read_fields s ∙ rw no_error (rw (text_settled _ settled) refl)

pub read-IsWaiting : (s : Value) → read_round s ≡ none → IsWaiting s
read-IsWaiting s h =
    elim (answer_cases (at_name s (codes "err")) (at_name s (codes "confirmationStatus"))) [
      | inl (no_error, same) ↦
          let unsettled = if_unsettled _ (sym same ∙ sym (read_fields s) ∙ h) in
          (
            no_error,
            λ e. false≢true (sym unsettled ∙ text_settled _ (inl e)),
            λ e. false≢true (sym unsettled ∙ text_settled _ (inr e)),
          )
      | inr (_, failed) ↦ absurd (failed-none (sym failed ∙ sym (read_fields s) ∙ h))
    ]

pub IsWaiting-read : (s : Value) → IsWaiting s → read_round s ≡ none
unfolding answer_of non_null
IsWaiting-read s (no_error, not_confirmed, not_finalized) =
    read_fields s ∙ rw no_error (rw unsettled refl)
  where
    unsettled : is_settled (as_str (at_name s (codes "confirmationStatus"))) ≡ false
    unsettled = elim (Bool-cases (is_settled (as_str (at_name s (codes "confirmationStatus"))))) [
      | inl known ↦ elim (settled_text _ known) [
        | inl e ↦ absurd (not_confirmed e)
        | inr e ↦ absurd (not_finalized e)
      ]
      | inr known ↦ known
    ]

-- A reply without an error, whose result has such a status.
abbrev pub HasStatus : Option Value → (Value → Type 0) → Type 0
HasStatus got P =
    (reply v : Value) × (got ≡ some reply)
    × (get reply (codes "error") ≡ none)
    × (get reply (codes "result") ≡ some v)
    × P (status_value v)

-- A round that gets this reply.
abbrev pub read_reply : Option Value → Option Confirmation
read_reply got = round (Option.map status_of (answer got))

pub read-HasStatus :
    (got : Option Value) (o : Option Confirmation) (P : Value → Type 0)
    → some Confirmation.call_failed ≢ o
    → read_reply got ≡ o
    → ((s : Value) → read_round s ≡ o → P s)
    → HasStatus got P
unfolding answer result_of round status_of
read-HasStatus none o P answered h reads = absurd (answered h)
read-HasStatus (some reply) o P answered h reads = elim (Option-cases (get reply (codes "error"))) [
  | inl no_error ↦ elim (Option-cases (get reply (codes "result"))) [
    | inl missing ↦ absurd (answered (rw missing at (rw no_error at h)))
    | inr (v, e) ↦ (reply, v, refl, no_error, e, reads _ (rw e at (rw no_error at h)))
  ]
  | inr (error, e) ↦ absurd (answered (rw e at h))
]

pub HasStatus-read :
    (got : Option Value) (o : Option Confirmation) (P : Value → Type 0)
    → HasStatus got P
    → ((s : Value) → P s → read_round s ≡ o)
    → read_reply got ≡ o
unfolding answer result_of status_of
HasStatus-read got o P (reply, v, e, no_error, result, has) reads =
    rw e (rw no_error (rw result (reads _ has)))
