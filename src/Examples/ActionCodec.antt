-- ===== src/Examples/ActionCodec.antt =====
-- A concrete codec for the parameter `Borsh`: the variant's index, then the fields in order.
use enclavekit_anchor.Common.{
  ℕ, zero, suc, ◌*◌, ◌≤◌, length-append, length-to_le_bytes, Bytes, List, [], ◌∷◌, ◌++◌, length,
  take, drop, take_prefix, drop_prefix, All, to_le_bytes, from_le_bytes, from_le_bytes-to_le_bytes,
  ◌≡◌, refl, ap, ◌∙◌, arith,
}
use mathlib.Core.Path.{ap₂}
use mathlib.Core.Option.{Option}
use enclavekit_anchor.Encoding.Action.{Action, Guardian, IsAction, IsGuardian}

unfoldable guardian_bytes : Guardian → Bytes
guardian_bytes Guardian.none = 0 ∷ []
guardian_bytes (Guardian.p256 key) = 1 ∷ key
guardian_bytes (Guardian.web_authn key) = 2 ∷ key

unfoldable guardians_bytes : List Guardian → Bytes
unfolding guardian_bytes
guardians_bytes [] = []
guardians_bytes (g ∷ gs) = guardian_bytes g ++ guardians_bytes gs

unfoldable pub serialize : Action → Bytes
unfolding guardians_bytes guardian_bytes
serialize (Action.transfer_sol to lamports) = 0 ∷ (to ++ to_le_bytes 8 lamports)
serialize (Action.transfer_token mint to amount) = 1 ∷ (mint ++ (to ++ to_le_bytes 8 amount))
serialize (Action.propose_rotation new_key) = 2 ∷ new_key
serialize Action.cancel_rotation = 3 ∷ []
serialize (Action.set_guardians guardians) = 4 ∷ guardians_bytes guardians
serialize (Action.sweep_vault to) = 5 ∷ to
serialize (Action.close_wallet to) = 6 ∷ to

abbrev prepend : Guardian → Option (List Guardian) → Option (List Guardian)
prepend g Option.none = Option.none
prepend g (Option.some gs) = Option.some (g ∷ gs)

unfoldable parse_guardians : ℕ → Bytes → Option (List Guardian)
parse_guardians zero xs = Option.some []
parse_guardians (suc n) [] = Option.none
parse_guardians (suc n) (zero ∷ xs) = prepend Guardian.none (parse_guardians n xs)
parse_guardians (suc n) (suc zero ∷ xs) =
    prepend (Guardian.p256 (take 33 xs)) (parse_guardians n (drop 33 xs))
parse_guardians (suc n) (_ ∷ xs) =
    prepend (Guardian.web_authn (take 33 xs)) (parse_guardians n (drop 33 xs))

abbrev guardians_action : Option (List Guardian) → Option Action
guardians_action Option.none = Option.none
guardians_action (Option.some gs) = Option.some (Action.set_guardians gs)

unfoldable pub parse : Bytes → Option Action
unfolding parse_guardians
parse [] = Option.none
parse (zero ∷ xs) = Option.some (Action.transfer_sol (take 32 xs) (from_le_bytes (drop 32 xs)))
parse (suc zero ∷ xs) = Option.some (
    Action.transfer_token (take 32 xs) (take 32 (drop 32 xs))
      (from_le_bytes (drop 32 (drop 32 xs))))
parse (suc (suc zero) ∷ xs) = Option.some (Action.propose_rotation xs)
parse (suc (suc (suc zero)) ∷ xs) = Option.some Action.cancel_rotation
parse (suc (suc (suc (suc zero))) ∷ xs) = guardians_action (parse_guardians 3 xs)
parse (suc (suc (suc (suc (suc zero)))) ∷ xs) = Option.some (Action.sweep_vault xs)
parse (_ ∷ xs) = Option.some (Action.close_wallet xs)

parse_guardians-guardians_bytes :
    (n : ℕ) (gs : List Guardian)
    → length gs ≡ n
    → All IsGuardian gs
    → parse_guardians n (guardians_bytes gs) ≡ Option.some gs
unfolding parse_guardians guardians_bytes guardian_bytes
parse_guardians-guardians_bytes zero [] e h = refl
parse_guardians-guardians_bytes zero (g ∷ gs) e h = absurd (omega (arith, e))
parse_guardians-guardians_bytes (suc n) [] e h = absurd (omega (arith, e))
parse_guardians-guardians_bytes (suc n) (Guardian.none ∷ gs) e (_, h) =
    ap (prepend Guardian.none) (parse_guardians-guardians_bytes n gs (omega (arith, e)) h)
parse_guardians-guardians_bytes (suc n) (Guardian.p256 key ∷ gs) e ((fits, _), h) =
    ap₂ (λ k r. prepend (Guardian.p256 k) r) (take_prefix 33 key (guardians_bytes gs) fits)
      (ap (parse_guardians n) (drop_prefix 33 key (guardians_bytes gs) fits)
        ∙ parse_guardians-guardians_bytes n gs (omega (arith, e)) h)
parse_guardians-guardians_bytes (suc n) (Guardian.web_authn key ∷ gs) e ((fits, _), h) =
    ap₂ (λ k r. prepend (Guardian.web_authn k) r) (take_prefix 33 key (guardians_bytes gs) fits)
      (ap (parse_guardians n) (drop_prefix 33 key (guardians_bytes gs) fits)
        ∙ parse_guardians-guardians_bytes n gs (omega (arith, e)) h)

pub parse-serialize : (a : Action) → IsAction a → parse (serialize a) ≡ Option.some a
unfolding parse serialize
parse-serialize (Action.transfer_sol to lamports) ((fits, _), small) =
    ap₂ (λ t n. Option.some (Action.transfer_sol t n)) (take_prefix 32 to _ fits)
      (ap from_le_bytes (drop_prefix 32 to _ fits)
        ∙ from_le_bytes-to_le_bytes 8 lamports (omega (arith, small)))
parse-serialize (Action.transfer_token mint to amount) ((fits, _), (fits', _), small) = rw (
  take_prefix 32 mint (to ++ to_le_bytes 8 amount) fits,
  drop_prefix 32 mint (to ++ to_le_bytes 8 amount) fits,
  take_prefix 32 to (to_le_bytes 8 amount) fits',
  drop_prefix 32 to (to_le_bytes 8 amount) fits',
  from_le_bytes-to_le_bytes 8 amount (omega (arith, small)),
)
parse-serialize (Action.propose_rotation new_key) h = refl
parse-serialize Action.cancel_rotation h = refl
parse-serialize (Action.set_guardians guardians) (three, h) =
    ap guardians_action (parse_guardians-guardians_bytes 3 guardians three h)
parse-serialize (Action.sweep_vault to) h = refl
parse-serialize (Action.close_wallet to) h = refl

length-guardians_bytes :
    (gs : List Guardian) → All IsGuardian gs → length (guardians_bytes gs) ≤ length gs * 34
unfolding guardians_bytes guardian_bytes
length-guardians_bytes [] h = omega arith
length-guardians_bytes (Guardian.none ∷ gs) (_, h) = omega (arith, length-guardians_bytes gs h)
length-guardians_bytes (Guardian.p256 key ∷ gs) ((fits, _), h) =
    omega (arith, fits, length-append key (guardians_bytes gs), length-guardians_bytes gs h)
length-guardians_bytes (Guardian.web_authn key ∷ gs) ((fits, _), h) =
    omega (arith, fits, length-append key (guardians_bytes gs), length-guardians_bytes gs h)

pub length-serialize : (a : Action) → IsAction a → length (serialize a) ≤ 103
unfolding serialize
length-serialize (Action.transfer_sol to lamports) ((fits, _), _) =
    omega (arith, fits, length-append to (to_le_bytes 8 lamports), length-to_le_bytes 8 lamports)
length-serialize (Action.transfer_token mint to amount) ((fits, _), (fits', _), _) = omega (
  arith,
  fits,
  fits',
  length-append mint (to ++ to_le_bytes 8 amount),
  length-append to (to_le_bytes 8 amount),
  length-to_le_bytes 8 amount,
)
length-serialize (Action.propose_rotation new_key) (fits, _) = omega (arith, fits)
length-serialize Action.cancel_rotation h = omega arith
length-serialize (Action.set_guardians guardians) (three, h) =
    omega (arith, three, length-guardians_bytes guardians h)
length-serialize (Action.sweep_vault to) (fits, _) = omega (arith, fits)
length-serialize (Action.close_wallet to) (fits, _) = omega (arith, fits)
