-- ===== src/Kora/Seed.antt =====
-- The key of the run: its seed out of `ENCLAVE_SEED`, or 32 random bytes.
use enclavekit_anchor.Common.{
  ℕ, ◌+◌, ◌-◌, ◌*◌, ◌/◌, ◌%◌, ◌<◌, Bytes, true, false, ◌&&◌, [], ◌∷◌, length, All, IsByte, IsArray,
  ltb, leb, ◌==◌, ==_iff, if◌then◌else◌, ◌≡◌, refl, arith,
}
use mathlib.Core.Option.{Option, none, some}
use enclavekit_anchor.Vectors.Text.{Text, hex_digit, hex, ◌>>=◌}
use enclavekit_anchor.Vectors.Tools.{Tools}
use enclavekit_anchor.Vectors.Key.{EnclaveKey, from_seed}

-- `char::to_digit(16)`
unfoldable pub digit_value : ℕ → Option ℕ
digit_value c =
    if leb b'0' c && leb c b'9'
    then some (c - b'0')
    else if leb b'a' c && leb c b'f'
    then some (c - b'a' + 10)
    else if leb b'A' c && leb c b'F'
    then some (c - b'A' + 10)
    else none

-- The digits of a `u8`, with its overflow.
unfoldable pub digits_from : ℕ → Text → Option ℕ
unfolding digit_value
digits_from value [] = some value
digits_from value (c ∷ cs) = do
  d ← digit_value c
  let rest = digits_from (value * 16 + d) cs
  if ltb (value * 16 + d) 256 then rest else none

-- `u8::from_str_radix(.., 16)`, which takes a sign `+`.
unfoldable pub u8_from_hex : Text → Option ℕ
unfolding digits_from
u8_from_hex [] = none
u8_from_hex (c ∷ []) = digits_from 0 (c ∷ [])
u8_from_hex (c ∷ d ∷ cs) = if c == b'+' then digits_from 0 (d ∷ cs) else digits_from 0 (c ∷ d ∷ cs)

-- The loop over the seed's bytes, two digits for each.
unfoldable pub seed_bytes : Text → Option Bytes
unfolding u8_from_hex
seed_bytes [] = some []
seed_bytes (c ∷ []) = none
seed_bytes (c ∷ d ∷ rest) = do
  byte ← u8_from_hex (c ∷ d ∷ [])
  bytes ← seed_bytes rest
  some (byte ∷ bytes)

-- The seed that `ENCLAVE_SEED` writes, in ASCII.
unfoldable pub seed_from_hex : Text → Option Bytes
unfolding seed_bytes
seed_from_hex text = if length text == 64 then seed_bytes text else none

-- `none` is an error, or the panic of `from_seed`. The variable and the random bytes are arguments.
unfoldable pub enclave_key : (t : Tools) → Option Text → Option Bytes → Option (EnclaveKey t)
unfolding seed_from_hex from_seed
enclave_key t (some text) random = do seed ← seed_from_hex text; from_seed t seed
enclave_key t none random = do seed ← random; from_seed t seed

digit_value-hex_digit : (d : ℕ) → d < 16 → digit_value (hex_digit d) ≡ some d
unfolding digit_value hex_digit
digit_value-hex_digit d h = ground arith

hex_digit_plain : (d : ℕ) → (hex_digit d == b'+') ≡ false
unfolding hex_digit
hex_digit_plain d = ground arith

u8_from_hex-digits :
    (b : ℕ) → b < 256 → u8_from_hex (hex_digit (b / 16) ∷ hex_digit (b % 16) ∷ []) ≡ some b
unfolding u8_from_hex digits_from
u8_from_hex-digits b h =
    let high = digit_value-hex_digit (b / 16) (omega arith) in
    let low = digit_value-hex_digit (b % 16) (omega arith) in
    rw (hex_digit_plain (b / 16)) (rw high (rw low (ground arith)))

length-hex : (bytes : Bytes) → length (hex bytes) ≡ length bytes * 2
unfolding hex
length-hex [] = refl
length-hex (b ∷ bytes) = omega (arith, length-hex bytes)

seed_bytes-hex : (bytes : Bytes) → All IsByte bytes → seed_bytes (hex bytes) ≡ some bytes
unfolding seed_bytes hex
seed_bytes-hex [] h = refl
seed_bytes-hex (b ∷ bytes) (fits, h) =
    rw (u8_from_hex-digits b fits) (rw (seed_bytes-hex bytes h) refl)

-- A seed of 32 bytes, written as the run shows bytes, is read back from `ENCLAVE_SEED`.
pub seed_from_hex-hex : (seed : Bytes) → IsArray 32 seed → seed_from_hex (hex seed) ≡ some seed
unfolding seed_from_hex
seed_from_hex-hex seed (sized, fits) =
    let long : (length (hex seed) == 64) ≡ true = (==_iff _ _).1 (omega (arith, length-hex seed)) in
    rw long (seed_bytes-hex seed fits)
