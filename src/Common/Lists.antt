-- ===== src/Common/Lists.antt =====
-- Lists measured and cut by native numbers, under the library's names.
use Prim.Native.Nat.{ℕ, zero, suc, ◌+◌, ◌-◌, min}
use mathlib.Core.Path.{◌≡◌, refl, sym, ap, ◌∙◌}
use mathlib.Core.List.{List, [], ◌∷◌, ◌++◌, map}
use mathlib.Core.Option.{Option, none, some}
use native.Mathlib.Omega.{arith}

module _ {ℓ} {A : Type ℓ} where
  abbrev pub length : List A → ℕ
  length [] = 0
  length (x ∷ xs) = suc (length xs)

  abbrev pub get_elem? : List A → ℕ → Option A
  get_elem? [] i = none
  get_elem? (x ∷ xs) zero = some x
  get_elem? (x ∷ xs) (suc i) = get_elem? xs i

  abbrev pub get_or : List A → ℕ → A → A
  get_or [] i d = d
  get_or (x ∷ xs) zero d = x
  get_or (x ∷ xs) (suc i) d = get_or xs i d

  abbrev pub take : ℕ → List A → List A
  take zero xs = []
  take (suc n) [] = []
  take (suc n) (x ∷ xs) = x ∷ take n xs

  abbrev pub drop : ℕ → List A → List A
  drop zero xs = xs
  drop (suc n) [] = []
  drop (suc n) (x ∷ xs) = drop n xs

  abbrev pub replicate : ℕ → A → List A
  replicate zero a = []
  replicate (suc n) a = a ∷ replicate n a

  abbrev pub All {κ} : (A → Type κ) → List A → Type κ
  All P [] = Unit {κ}
  All P (x ∷ xs) = P x × All P xs

  pub length-append : (xs ys : List A) → length (xs ++ ys) ≡ length xs + length ys
  length-append [] ys = omega arith
  length-append (x ∷ xs) ys = omega (arith, length-append xs ys)

  pub take-append-drop : (n : ℕ) (xs : List A) → take n xs ++ drop n xs ≡ xs
  take-append-drop zero xs = refl
  take-append-drop (suc n) [] = refl
  take-append-drop (suc n) (x ∷ xs) = rw (take-append-drop n xs)

  pub length-take : (n : ℕ) (xs : List A) → length (take n xs) ≡ min n (length xs)
  length-take zero xs = omega arith
  length-take (suc n) [] = omega arith
  length-take (suc n) (x ∷ xs) = omega (arith, length-take n xs)

  pub length-drop : (n : ℕ) (xs : List A) → length (drop n xs) ≡ length xs - n
  length-drop zero xs = omega arith
  length-drop (suc n) [] = omega arith
  length-drop (suc n) (x ∷ xs) = omega (arith, length-drop n xs)

  pub length-replicate : (n : ℕ) (a : A) → length (replicate n a) ≡ n
  length-replicate zero a = refl
  length-replicate (suc n) a = ap suc (length-replicate n a)

  -- A list cut where its first part ends.
  pub take_prefix : (n : ℕ) (xs ys : List A) → length xs ≡ n → take n (xs ++ ys) ≡ xs
  take_prefix zero [] ys h = refl
  take_prefix (suc n) [] ys h = absurd (omega arith)
  take_prefix zero (x ∷ xs) ys h = absurd (omega arith)
  take_prefix (suc n) (x ∷ xs) ys h = ap (λ (t : List A). x ∷ t) (take_prefix n xs ys (omega arith))

  pub drop_prefix : (n : ℕ) (xs ys : List A) → length xs ≡ n → drop n (xs ++ ys) ≡ ys
  drop_prefix zero [] ys h = refl
  drop_prefix (suc n) [] ys h = absurd (omega arith)
  drop_prefix zero (x ∷ xs) ys h = absurd (omega arith)
  drop_prefix (suc n) (x ∷ xs) ys h = drop_prefix n xs ys (omega arith)

  -- Further on: cut the first part off, then go on in the rest.
  pub drop_past : (n m : ℕ) (xs ys : List A) → length xs ≡ n → drop (n + m) (xs ++ ys) ≡ drop m ys
  drop_past zero m [] ys h = rw zero_add_lem
    where
      zero_add_lem : zero + m ≡ m
      zero_add_lem = omega arith
  drop_past (suc n) m [] ys h = absurd (omega arith)
  drop_past zero m (x ∷ xs) ys h = absurd (omega arith)
  drop_past (suc n) m (x ∷ xs) ys h = rw suc_add_lem (drop_past n m xs ys (omega arith))
    where
      suc_add_lem : suc n + m ≡ suc (n + m)
      suc_add_lem = omega arith

  pub drop-drop : (m n : ℕ) (xs : List A) → drop m (drop n xs) ≡ drop (n + m) xs
  drop-drop m zero xs = rw zero_add_lem
    where
      zero_add_lem : zero + m ≡ m
      zero_add_lem = omega arith
  drop-drop zero (suc n) [] = rw suc_add_lem
    where
      suc_add_lem : suc n + zero ≡ suc (n + zero)
      suc_add_lem = omega arith
  drop-drop (suc m) (suc n) [] = rw suc_add_lem
    where
      suc_add_lem : suc n + suc m ≡ suc (n + suc m)
      suc_add_lem = omega arith
  drop-drop m (suc n) (x ∷ xs) = rw suc_add_lem (drop-drop m n xs)
    where
      suc_add_lem : suc n + m ≡ suc (n + m)
      suc_add_lem = omega arith

  -- Cutting a further part off what is left at an offset.
  pub drop_further :
      (n m : ℕ) (b xs ys : List A) → drop n b ≡ xs ++ ys → length xs ≡ m → drop (n + m) b ≡ ys
  drop_further n m b xs ys e h = sym (drop-drop m n b) ∙ ap (drop m) e ∙ drop_prefix m xs ys h

  -- Two lists that begin with parts of one length are equal part by part.
  pub append_split :
      (xs ys us vs : List A) → length xs ≡ length us → xs ++ ys ≡ us ++ vs → (xs ≡ us) × (ys ≡ vs)
  append_split [] ys [] vs h e = (refl, e)
  append_split [] ys (u ∷ us) vs h e = absurd (omega arith)
  append_split (x ∷ xs) ys [] vs h e = absurd (omega arith)
  append_split (x ∷ xs) ys (u ∷ us) vs h e =
      let (p, q) = append_split xs ys us vs (omega arith) (cc) in (cc, q)

module _ {ℓ} {A : Type ℓ} where
  pub length-map {κ} : {B : Type κ} (xs : List A) (f : A → B) → length (map f xs) ≡ length xs
  length-map [] f = refl
  length-map (x ∷ xs) f = ap suc (length-map xs f)
