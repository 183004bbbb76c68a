-- ===== src/Vectors/Files/Made.antt =====
-- That every file is made.
use enclavekit_anchor.Common.{List, [], ◌∷◌, ◌≡◌, refl}
use mathlib.Core.Option.{some}
use enclavekit_anchor.Vectors.Text.{Text, codes, map_each}
use enclavekit_anchor.Vectors.Inputs
use enclavekit_anchor.Vectors.Inputs.{private_key}
use enclavekit_anchor.Vectors.Tools.{Tools}
use enclavekit_anchor.Vectors.Key.{EnclaveKey, from_seed, key_vector}
use enclavekit_anchor.Vectors.Actions.{
  ActionsVector, HighSVector, actions_vector, high_s_vector, cases, action_vector, fields,
}
use enclavekit_anchor.Vectors.Instructions.{
  InstructionsVector, instructions_vector, named_instruction, program_instruction,
  args_and_accounts,
}
use enclavekit_anchor.Vectors.Transaction.{TransactionVector, transaction_vector}
use enclavekit_anchor.Vectors.States.{StateVector, state_vector}
use enclavekit_anchor.Vectors.Files.{Document, Printer, render, vectors}

module _ (t : Tools) (k new_key guardian_key : EnclaveKey t)
    (h1 : from_seed t Inputs.new_key_seed ≡ some new_key)
    (h2 : from_seed t Inputs.guardian_seed ≡ some guardian_key) where
  instructions_made : (v : InstructionsVector) × (instructions_vector t k ≡ some v)
  unfolding instructions_vector cases map_each named_instruction program_instruction
      args_and_accounts
  instructions_made = rw h1 (rw h2 (_, refl))

  actions_made : (v : ActionsVector) × (actions_vector t k ≡ some v)
  unfolding actions_vector cases map_each action_vector fields
  actions_made = rw h1 (rw h2 (_, refl))

abbrev pub names : List (Text × Text) → List Text
names [] = []
names ((name, json) ∷ files) = name ∷ names files

abbrev pub file_names : List Text
file_names =
    codes "key.json"
    ∷ codes "actions.json"
    ∷ codes "high_s.json"
    ∷ codes "transaction.json"
    ∷ codes "instructions.json"
    ∷ codes "state.json"
    ∷ []

module _ (t : Tools) (to_string_pretty : Printer) (k new_key guardian_key passkey : EnclaveKey t)
    (h : from_seed t private_key ≡ some k) (h1 : from_seed t Inputs.new_key_seed ≡ some new_key)
    (h2 : from_seed t Inputs.guardian_seed ≡ some guardian_key)
    (h3 : from_seed t Inputs.passkey_seed ≡ some passkey)
    (negated : (s : t.Signature) → (high : t.Signature) × (t.negate_s s ≡ some high))
    (printed : (v : Document) → (json : Text) × (to_string_pretty v ≡ some json)) where
  rendered : (v : Document) → (json : Text) × (render to_string_pretty v ≡ some json)
  unfolding render
  rendered v = let (json, e) = printed v in rw e (_, refl)

  high_s_made : (v : HighSVector) × (high_s_vector t k ≡ some v)
  unfolding high_s_vector
  high_s_made =
      let (high, e) = negated (t.normalize_s (t.sign k (codes "enclavekit high-S vector"))) in
      rw e (_, refl)

  state_made : (v : StateVector) × (state_vector t k ≡ some v)
  unfolding state_vector
  state_made = rw h2 (rw h3 (rw h1 (_, refl)))

  transaction_made : (v : TransactionVector) × (transaction_vector t k ≡ some v)
  unfolding transaction_vector program_instruction args_and_accounts
  transaction_made = (_, refl)

  -- The names in the order of the files.
  pub vectors_made :
      (files : List (Text × Text)) × (vectors t to_string_pretty ≡ some files)
      × (names files ≡ file_names)
  unfolding vectors
  vectors_made =
      let (made_actions, e1) = actions_made t k new_key guardian_key h1 h2 in
      let (made_high_s, e2) = high_s_made in
      let (made_transaction, e3) = transaction_made in
      let (made_instructions, e4) = instructions_made t k new_key guardian_key h1 h2 in
      let (made_state, e5) = state_made in
      let (_, r0) = rendered (Document.key (key_vector t k)) in
      let (_, r1) = rendered (Document.actions made_actions) in
      let (_, r2) = rendered (Document.high_s made_high_s) in
      let (_, r3) = rendered (Document.transaction made_transaction) in
      let (_, r4) = rendered (Document.instructions made_instructions) in
      let (_, r5) = rendered (Document.state made_state) in
      rw h (
        rw r0 (
          rw e1 (
            rw r1 (rw e2 (rw r2 (rw e3 (rw r3 (rw e4 (rw r4 (rw e5 (rw r5 (_, refl, refl))))))))))))
