-- ===== src/Vectors/Files/Written.antt =====
-- That every file is written, and that the test then passes.
use enclavekit_anchor.Common.{
  true, bytes_eq, bytes_eq_refl, All, List, [], ◌∷◌, ◌≡◌, ◌≢◌, refl, sym, ◌∙◌, subst, bytes_ne,
}
use mathlib.Core.Option.{some}
use enclavekit_anchor.Vectors.Text.{Text}
use enclavekit_anchor.Vectors.Inputs
use enclavekit_anchor.Vectors.Inputs.{private_key}
use enclavekit_anchor.Vectors.Tools.{Tools}
use enclavekit_anchor.Vectors.Key.{EnclaveKey, from_seed}
use enclavekit_anchor.Vectors.Files.{
  Document, Printer, FileSystem, vectors, write_each, main, up_to_date,
}
use enclavekit_anchor.Vectors.Files.Made.{names, file_names, vectors_made}

-- No file has this name.
abbrev IsAbsent : Text → List Text → Type 0
IsAbsent name others = All (λ (n : Text). n ≢ name) others

abbrev HasNoRepeat : List Text → Type 0
HasNoRepeat [] = Unit
HasNoRepeat (name ∷ others) = IsAbsent name others × HasNoRepeat others

file_names-HasNoRepeat : HasNoRepeat file_names
unfolding bytes_eq
file_names-HasNoRepeat = (
  (
    bytes_ne _ _ refl,
    (bytes_ne _ _ refl, (bytes_ne _ _ refl, (bytes_ne _ _ refl, (bytes_ne _ _ refl, tt)))),
  ),
  (
    (bytes_ne _ _ refl, (bytes_ne _ _ refl, (bytes_ne _ _ refl, (bytes_ne _ _ refl, tt)))),
    (
      (bytes_ne _ _ refl, (bytes_ne _ _ refl, (bytes_ne _ _ refl, tt))),
      ((bytes_ne _ _ refl, (bytes_ne _ _ refl, tt)), ((bytes_ne _ _ refl, tt), (tt, tt))),
    ),
  ),
)

module _ (fs : FileSystem) (out folder : Text)
    (writes : (name json : Text) (disk : fs.Disk)
      → fs.canonicalize out disk ≡ some folder
      → (after : fs.Disk) × (fs.write (fs.join folder name) json disk ≡ some after)) where
  -- The folder holds these files.
  abbrev HoldsFiles : List (Text × Text) → fs.Disk → Type 0
  HoldsFiles files disk =
      All (λ (f : Text × Text). fs.read_to_string (fs.join folder f.0) disk ≡ some f.1) files

  abbrev IsWritten : List (Text × Text) → fs.Disk → fs.Disk → Type 0
  IsWritten files disk after =
      (fs.canonicalize out after ≡ some folder)
      × HoldsFiles files after
      × ((other : Text)
          → IsAbsent other (names files)
          → fs.read_to_string (fs.join folder other) after
            ≡ fs.read_to_string (fs.join folder other) disk)

  written :
      (files : List (Text × Text)) (disk : fs.Disk)
      → fs.canonicalize out disk ≡ some folder
      → HasNoRepeat (names files)
      → (after : fs.Disk) × (write_each fs folder files disk ≡ some after)
        × IsWritten files disk after
  unfolding write_each
  written [] disk there distinct = (disk, refl, (there, tt, λ other h. refl))
  written ((name, json) ∷ files) disk there (apart, distinct) =
      let (next, e) = writes name json disk there in
      let still = fs.canonicalize-write out folder name json disk next there e in
      let (after, ran, (there', held, kept)) = written files next still distinct in
      (
        after,
        rw e ran,
        (
          there',
          (kept name apart ∙ fs.read-write _ _ _ _ e, held),
          λ other h.
              kept other h.1 ∙ fs.read_other out folder name other json disk next there h.0 e,
        ),
      )

  up_to_date_held :
      (files : List (Text × Text)) (disk : fs.Disk)
      → fs.canonicalize out disk ≡ some folder
      → HoldsFiles files disk
      → up_to_date fs out files disk ≡ true
  unfolding up_to_date
  up_to_date_held [] disk there held = refl
  up_to_date_held ((name, json) ∷ files) disk there (first, rest) =
      rw (up_to_date, fs.read_canonical out folder name disk there ∙ first)
        (rw (bytes_eq_refl json) (up_to_date_held files disk there rest))

module _ (fs : FileSystem) (t : Tools) (to_string_pretty : Printer) (out folder : Text)
    (before disk : fs.Disk) (made : fs.create_dir_all out before ≡ some disk)
    (there : fs.canonicalize out disk ≡ some folder)
    (writes : (name json : Text) (disk : fs.Disk)
      → fs.canonicalize out disk ≡ some folder
      → (after : fs.Disk) × (fs.write (fs.join folder name) json disk ≡ some after))
    (k new_key guardian_key passkey : EnclaveKey t) (h : from_seed t private_key ≡ some k)
    (h1 : from_seed t Inputs.new_key_seed ≡ some new_key)
    (h2 : from_seed t Inputs.guardian_seed ≡ some guardian_key)
    (h3 : from_seed t Inputs.passkey_seed ≡ some passkey)
    (negated : (s : t.Signature) → (high : t.Signature) × (t.negate_s s ≡ some high))
    (printed : (v : Document) → (json : Text) × (to_string_pretty v ≡ some json)) where
  -- Where the seeds are valid keys, and no printing, writing or negation of `s` fails, the generator
  -- writes all six files, and the test that they are up to date passes on the disk that it leaves.
  pub main-up_to_date :
      (files : List (Text × Text)) × (vectors t to_string_pretty ≡ some files)
      × (names files ≡ file_names)
      × (after : fs.Disk) × (main fs t to_string_pretty out before ≡ some after)
      × (up_to_date fs out files after ≡ true)
  unfolding main
  main-up_to_date =
      let (files, e, named) =
        vectors_made t to_string_pretty k new_key guardian_key passkey h h1 h2 h3 negated printed in
      let distinct : HasNoRepeat (names files) =
        subst HasNoRepeat (sym named) file_names-HasNoRepeat in
      let (after, ran, (there', held, _)) =
        written fs out folder writes files disk there distinct in
      (
        files,
        e,
        named,
        after,
        rw made (rw there (rw e ran)),
        up_to_date_held fs out folder writes files after there' held,
      )
