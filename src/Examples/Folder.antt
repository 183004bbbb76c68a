-- ===== src/Examples/Folder.antt =====
-- A disk with one folder, and the theorem on the generator's files applied to it.
use enclavekit_anchor.Common.{
  true, false, bytes_eq, bytes_eq→eq, bytes_eq_refl, Bool-cases, inl, inr, List, [], if◌then◌else◌,
  ◌≡◌, ◌≢◌, refl, sym, subst,
}
use mathlib.Core.Option.{Option, none, some, some-injective}
use enclavekit_anchor.Vectors.Text.{Text, codes}
use enclavekit_anchor.Vectors.Inputs.{private_key}
use enclavekit_anchor.Vectors.Key.{from_seed}
use enclavekit_anchor.Vectors.Files.{Document, FileSystem, vectors, main, up_to_date}
use enclavekit_anchor.Vectors.Files.Made.{names, file_names}
use enclavekit_anchor.Vectors.Files.Written.{main-up_to_date}
use enclavekit_anchor.Examples.Generator.{tools}
use enclavekit_anchor.Examples.Generated.{seed_key, seed_guardian, seed_passkey}

abbrev Contents : Type 0
Contents = Text → Option Text

abbrev put : Text → Text → Contents → Contents
put path json disk p = if bytes_eq p path then some json else disk p

read-put :
    (path json : Text) (disk after : Contents)
    → ◌≡◌ {A = Option Contents} (some (put path json disk)) (some after)
    → after path ≡ some json
read-put path json disk after e =
    subst (λ (d : Contents). d path ≡ some json) (some-injective _ _ e)
      (rw (bytes_eq_refl path) refl)

apart : (xs ys : Text) → xs ≢ ys → bytes_eq ys xs ≡ false
apart xs ys ne = elim (Bool-cases (bytes_eq ys xs)) [
  | inl same ↦ absurd (ne (sym (bytes_eq→eq ys xs same)))
  | inr other ↦ other
]

read_other_put :
    (name other json : Text) (disk after : Contents)
    → name ≢ other
    → ◌≡◌ {A = Option Contents} (some (put name json disk)) (some after)
    → after other ≡ disk other
read_other_put name other json disk after ne e =
    subst (λ (d : Contents). d other ≡ disk other) (some-injective _ _ e)
      (rw (apart name other ne) refl)

abbrev folder : FileSystem
folder = record {
  Disk = Contents;
  create_dir_all = λ out disk. some disk;
  canonicalize = λ out disk. some out;
  join = λ out name. name;
  write = λ path json disk. some (put path json disk);
  read_to_string = λ path disk. disk path;
  read-write = read-put;
  read_canonical = λ out folder name disk h. refl;
  canonicalize-write = λ out folder name json disk after h e. h;
  read_other = λ out folder name other json disk after h ne e.
      read_other_put name other json disk after ne e;
}

seed_test : from_seed tools private_key ≡ some 1
unfolding from_seed
seed_test = refl

abbrev print : Document → Option Text
print v = some []

main-up_to_date_example :
    (files : List (Text × Text)) × (vectors tools print ≡ some files)
    × (names files ≡ file_names)
    × (after : Contents) × (main folder tools print (codes "vectors") (λ path. none) ≡ some after)
    × (up_to_date folder (codes "vectors") files after ≡ true)
main-up_to_date_example =
    main-up_to_date folder tools print (codes "vectors") (codes "vectors") (λ path. none)
      (λ path. none) refl refl (λ name json disk h. (put name json disk, refl)) 1 0x44 0x55 0x66
      seed_test seed_key seed_guardian seed_passkey (λ s. (s, refl)) (λ v. ([], refl))
