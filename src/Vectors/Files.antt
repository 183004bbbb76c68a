-- ===== src/Vectors/Files.antt =====
-- main.rs: `vectors`, `main`, which writes every file, and the test that the files are up to date.
pub mod Made
pub mod Written
use enclavekit_anchor.Common.{
  Bool, true, false, bytes_eq, List, [], ◌∷◌, ◌++◌, ◌≡◌, ◌≢◌, if◌then◌else◌,
}
use mathlib.Core.Option
use mathlib.Core.Option.{Option, none, some}
use enclavekit_anchor.Vectors.Text.{Text, codes, ◌>>=◌}
use enclavekit_anchor.Vectors.Inputs.{private_key}
use enclavekit_anchor.Vectors.Tools.{Tools}
use enclavekit_anchor.Vectors.Key.{KeyVector, from_seed, key_vector}
use enclavekit_anchor.Vectors.Actions.{ActionsVector, HighSVector, actions_vector, high_s_vector}
use enclavekit_anchor.Vectors.Transaction.{TransactionVector, transaction_vector}
use enclavekit_anchor.Vectors.Instructions.{InstructionsVector, instructions_vector}
use enclavekit_anchor.Vectors.States.{StateVector, state_vector}

-- What `render` is called with.
pub data Document : Type 0 where
  key : KeyVector → Document
  actions : ActionsVector → Document
  high_s : HighSVector → Document
  transaction : TransactionVector → Document
  instructions : InstructionsVector → Document
  state : StateVector → Document

-- `serde_json::to_string_pretty` of the derived `Serialize`
abbrev pub Printer : Type 0
Printer = Document → Option Text

-- `std::fs` and `std::path`, with the folder of the vectors, which is named by a relative path.
pub record FileSystem : Type 1 where
  pub Disk : Type 0
  pub create_dir_all : Text → Disk → Option Disk
  pub canonicalize : Text → Disk → Option Text
  pub join : Text → Text → Text
  pub write : Text → Text → Disk → Option Disk
  pub read_to_string : Text → Disk → Option Text
  -- A file written is read back.
  pub read-write :
      (path json : Text) (disk after : Disk)
      → write path json disk ≡ some after
      → read_to_string path after ≡ some json
  -- A folder has its files under its canonical name too, and keeps that name through writes in it. Its
  -- files are not links to each other: a write keeps the others.
  pub read_canonical :
      (out folder name : Text) (disk : Disk)
      → canonicalize out disk ≡ some folder
      → read_to_string (join out name) disk ≡ read_to_string (join folder name) disk
  pub canonicalize-write :
      (out folder name json : Text) (disk after : Disk)
      → canonicalize out disk ≡ some folder
      → write (join folder name) json disk ≡ some after
      → canonicalize out after ≡ some folder
  pub read_other :
      (out folder name other json : Text) (disk after : Disk)
      → canonicalize out disk ≡ some folder
      → name ≢ other
      → write (join folder name) json disk ≡ some after
      → read_to_string (join folder other) after ≡ read_to_string (join folder other) disk

-- `render`
unfoldable pub render : Printer → Document → Option Text
render to_string_pretty value = Option.map (λ json. json ++ codes "\n") (to_string_pretty value)

module _ (t : Tools) (to_string_pretty : Printer) where
  unfoldable pub vectors : Option (List (Text × Text))
  unfolding from_seed key_vector
  vectors = do
    k ← from_seed t private_key
    key_json ← render to_string_pretty (Document.key (key_vector t k))
    made_actions ← actions_vector t k
    actions_json ← render to_string_pretty (Document.actions made_actions)
    made_high_s ← high_s_vector t k
    high_s_json ← render to_string_pretty (Document.high_s made_high_s)
    made_transaction ← transaction_vector t k
    transaction_json ← render to_string_pretty (Document.transaction made_transaction)
    made_instructions ← instructions_vector t k
    instructions_json ← render to_string_pretty (Document.instructions made_instructions)
    made_state ← state_vector t k
    state_json ← render to_string_pretty (Document.state made_state)
    some (
        (codes "key.json", key_json)
        ∷ (codes "actions.json", actions_json)
        ∷ (codes "high_s.json", high_s_json)
        ∷ (codes "transaction.json", transaction_json)
        ∷ (codes "instructions.json", instructions_json)
        ∷ (codes "state.json", state_json)
        ∷ [])

module _ (fs : FileSystem) where
  -- The loop of `main`.
  unfoldable pub write_each : Text → List (Text × Text) → fs.Disk → Option fs.Disk
  write_each out [] disk = some disk
  write_each out ((name, json) ∷ files) disk = do
    disk ← fs.write (fs.join out name) json disk
    write_each out files disk

  -- What `main` leaves on the disk; none is a panic.
  unfoldable pub main : Tools → Printer → Text → fs.Disk → Option fs.Disk
  unfolding vectors write_each
  main t to_string_pretty out disk = do
    disk ← fs.create_dir_all out disk
    folder ← fs.canonicalize out disk
    files ← vectors t to_string_pretty
    write_each folder files disk

  -- The loop of the test.
  unfoldable pub up_to_date : Text → List (Text × Text) → fs.Disk → Bool
  up_to_date dir [] disk = true
  up_to_date dir ((name, expected) ∷ files) disk =
      let rest = up_to_date dir files disk in
      elim (fs.read_to_string (fs.join dir name) disk) [
        | none ↦ false
        | some committed ↦ if bytes_eq committed expected then rest else false
      ]
