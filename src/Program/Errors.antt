-- ===== src/Program/Errors.antt =====
-- programs/enclavekit/src/error.rs, and the result of a call that can fail.
use enclavekit_anchor.Common.{ℕ, Bool, true, false, ◌≡◌, refl, ◌⊎◌, inl, inr}
use mathlib.Core.Option.{Option, none, some}

pub data EnclaveKitError : Type 0 where
  precompile_program_mismatch : EnclaveKitError
  precompile_unexpected_accounts : EnclaveKitError
  precompile_data_too_short : EnclaveKitError
  precompile_signature_count_mismatch : EnclaveKitError
  precompile_layout_mismatch : EnclaveKitError
  precompile_message_size_mismatch : EnclaveKitError
  wallet_id_mismatch : EnclaveKitError
  key_mismatch : EnclaveKitError
  nonce_mismatch : EnclaveKitError
  authorization_expired : EnclaveKitError
  preimage_mismatch : EnclaveKitError
  web_authn_guardian_unsupported : EnclaveKitError
  no_pending_rotation : EnclaveKitError
  not_a_guardian : EnclaveKitError
  rotation_slot_taken : EnclaveKitError
  invalid_new_key : EnclaveKitError
  rotation_too_early : EnclaveKitError
  rotation_expired : EnclaveKitError
  insufficient_vault_balance : EnclaveKitError

-- `anchor_lang::error::Error`: the program's own codes, `ProgramError::ArithmeticOverflow`, and
-- whatever a call of the platform answered.
pub data Error : Type 0 where
  enclave_kit : EnclaveKitError → Error
  arithmetic_overflow : Error
  platform : ℕ → Error

pub data Result {ℓ} (A : Type ℓ) : Type ℓ where
  err : Error → Result A
  ok : A → Result A

pub ok_injective {ℓ} : {A : Type ℓ} (a b : A) → ok a ≡ ok b → a ≡ b
ok_injective a b e = cc

-- A call either fails or answers.
pub Result-cases {ℓ} :
    {A : Type ℓ} (r : Result A) → ((a : A) × (r ≡ ok a)) ⊎ ((e : Error) × (r ≡ err e))
Result-cases (err failure) = inr (failure, refl)
Result-cases (ok answer) = inl (answer, refl)

infixl 5 ◌>>=◌
-- The operator `?`: an error ends the method.
abbrev pub ◌>>=◌ {ℓ κ} : {A : Type ℓ} → {B : Type κ} → Result A → (A → Result B) → Result B
(err failure) >>= rest = err failure
(ok answer) >>= rest = rest answer

-- `require!`
abbrev pub require : Bool → EnclaveKitError → Result (Unit {0})
require true e = ok tt
require false e = err (enclave_kit e)

infixl 5 ◌>>◌
abbrev pub ◌>>◌ {κ} : {B : Type κ} → Result (Unit {0}) → Result B → Result B
check >> rest = check >>= λ passed. rest

-- `Option::ok_or` with an error of the program.
abbrev pub ok_or {ℓ} : {A : Type ℓ} → Option A → Error → Result A
ok_or (some a) e = ok a
ok_or none e = err e

-- Inversion of a successful `?`, for proofs where the call stays shut.
pub >>=-eq-ok {ℓ κ} :
    {A : Type ℓ} {B : Type κ} (call : Result A) (rest : A → Result B) {b : B}
    → (call >>= rest) ≡ ok b
    → (a : A) × (call ≡ ok a) × (rest a ≡ ok b)
>>=-eq-ok (err failure) rest h = cc
>>=-eq-ok (ok answer) rest h = (answer, refl, h)

-- A test that passes leaves the rest; a run that succeeds passed its test.
pub require-true {ℓ} :
    {B : Type ℓ} (b : Bool) (e : EnclaveKitError) (k : Result B) → b ≡ true → (require b e >> k) ≡ k
require-true b e k h = rw h

pub require-eq-ok {ℓ} :
    {B : Type ℓ} (b : Bool) (e : EnclaveKitError) (k : Result B) {r : B}
    → (require b e >> k) ≡ ok r
    → (b ≡ true) × (k ≡ ok r)
require-eq-ok true e k h = (refl, h)
require-eq-ok false e k h = cc

-- The same for proofs that go on from the parts: what was bound, by name.
pub bind_ok {ℓ κ μ} :
    {A : Type ℓ} {B : Type κ} {C : Type μ} (m : Result A) (f : A → Result B) {b : B}
    → (m >>= f) ≡ ok b
    → ((a : A) → m ≡ ok a → f a ≡ ok b → C)
    → C
bind_ok m f h use_parts = let (a, e, rest) = >>=-eq-ok m f h in use_parts a e rest

pub require_ok {ℓ μ} :
    {B : Type ℓ} {C : Type μ} (b : Bool) (e : EnclaveKitError) (k : Result B) {r : B}
    → (require b e >> k) ≡ ok r
    → (b ≡ true → k ≡ ok r → C)
    → C
require_ok b e k h use_parts = let (t, rest) = require-eq-ok b e k h in use_parts t rest
