-- ===== src/Common/ByteStrings.antt =====
-- Byte strings as lists of numbers, their equality test, and little-endian integers.
use Prim.Native.Nat.{ℕ, zero, suc, ◌+◌, ◌-◌, ◌*◌, ◌/◌, ◌%◌, ◌^◌, ◌<◌}
use mathlib.Core.Path.{◌≡◌, refl, sym, ap, ◌∙◌}
use mathlib.Core.Logic.{◌≢◌}
use mathlib.Core.Bool.{Bool, true, false, ◌&&◌, false≢true}
use mathlib.Core.List.{List, [], ◌∷◌, ◌++◌}
use native.Mathlib.Nat.{pow-suc}
use native.Mathlib.Omega.{arith}
use enclavekit_anchor.Common.Tests.{◌==◌}
use enclavekit_anchor.Common.Lists.{length, All, take, take_prefix}
use enclavekit_anchor.Common.Int.{ℤ, pos, negsuc, IsI64}

abbrev pub Bytes : Type 0
Bytes = List ℕ

abbrev pub IsByte : ℕ → Type 0
IsByte b = b < 256

-- `[u8; n]`
abbrev pub IsArray : ℕ → Bytes → Type 0
IsArray n xs = (length xs ≡ n) × All IsByte xs

abbrev pub IsU64 : ℕ → Type 0
IsU64 n = n < 2 ^ 64

unfoldable pub bytes_eq : Bytes → Bytes → Bool
bytes_eq [] [] = true
bytes_eq (x ∷ xs) (y ∷ ys) = x == y && bytes_eq xs ys
bytes_eq _ _ = false

pub bytes_eq→eq : (xs ys : Bytes) → bytes_eq xs ys ≡ true → xs ≡ ys
unfolding bytes_eq
bytes_eq→eq [] [] h = refl
bytes_eq→eq [] (y ∷ ys) h = cc
bytes_eq→eq (x ∷ xs) [] h = cc
bytes_eq→eq (x ∷ xs) (y ∷ ys) h = ground (arith, bytes_eq→eq xs ys)

pub bytes_eq_refl : (xs : Bytes) → bytes_eq xs xs ≡ true
unfolding bytes_eq
bytes_eq_refl [] = refl
bytes_eq_refl (x ∷ xs) = ground (arith, bytes_eq_refl xs)

pub bytes_eq_ne : (xs ys : Bytes) → xs ≢ ys → bytes_eq xs ys ≡ false
bytes_eq_ne xs ys h = ground (arith, bytes_eq→eq xs ys)

-- The lowest `n` bytes of `v`, lowest first: `to_le_bytes` for an integer of `n` bytes.
unfoldable pub to_le_bytes : ℕ → ℕ → Bytes
to_le_bytes zero v = []
to_le_bytes (suc n) v = (v % 256) ∷ to_le_bytes n (v / 256)

unfoldable pub from_le_bytes : Bytes → ℕ
from_le_bytes [] = 0
from_le_bytes (b ∷ bs) = b + 256 * from_le_bytes bs

-- `i64::to_le_bytes`: the two's complement pattern.
unfoldable pub i64_bits : ℤ → ℕ
i64_bits (pos n) = n % 2 ^ 64
i64_bits (negsuc n) = 2 ^ 64 - 1 - n % 2 ^ 64

pub length-to_le_bytes : (n v : ℕ) → length (to_le_bytes n v) ≡ n
unfolding to_le_bytes
length-to_le_bytes zero v = refl
length-to_le_bytes (suc n) v = ap suc (length-to_le_bytes n (v / 256))

pub to_le_bytes-IsByte : (n v : ℕ) → All IsByte (to_le_bytes n v)
unfolding to_le_bytes
to_le_bytes-IsByte zero v = tt
to_le_bytes-IsByte (suc n) v = (omega arith, to_le_bytes-IsByte n (v / 256))

pub from_le_bytes-to_le_bytes : (n v : ℕ) → v < 256 ^ n → from_le_bytes (to_le_bytes n v) ≡ v
unfolding to_le_bytes from_le_bytes
from_le_bytes-to_le_bytes zero v h = omega arith
from_le_bytes-to_le_bytes (suc n) v h =
    let fits : v / 256 < 256 ^ n = omega (arith, pow-suc 256 n) in
    omega (arith, from_le_bytes-to_le_bytes n (v / 256) fits)

pub u64_le_injective : (v w : ℕ) → IsU64 v → IsU64 w → to_le_bytes 8 v ≡ to_le_bytes 8 w → v ≡ w
u64_le_injective v w hv hw e =
    sym (from_le_bytes-to_le_bytes 8 v (omega arith))
    ∙ ap from_le_bytes e
    ∙ from_le_bytes-to_le_bytes 8 w (omega arith)

-- An integer is read back from the front of what follows it.
pub u64_read : (v : ℕ) (ys : Bytes) → IsU64 v → from_le_bytes (take 8 (to_le_bytes 8 v ++ ys)) ≡ v
u64_read v ys h =
    ap from_le_bytes (take_prefix 8 (to_le_bytes 8 v) ys (length-to_le_bytes 8 v))
    ∙ from_le_bytes-to_le_bytes 8 v (omega arith)

pub i64_bits-IsU64 : (z : ℤ) → IsU64 (i64_bits z)
unfolding i64_bits
i64_bits-IsU64 (pos n) = omega arith
i64_bits-IsU64 (negsuc n) = omega arith

pub i64_bits_injective : (a b : ℤ) → IsI64 a → IsI64 b → i64_bits a ≡ i64_bits b → a ≡ b
unfolding i64_bits
i64_bits_injective a b ha hb e = ground arith

-- Strings that the test tells apart differ.
pub bytes_ne : (xs ys : Bytes) → bytes_eq xs ys ≡ false → xs ≢ ys
bytes_ne xs ys apart same = false≢true (sym apart ∙ rw same (bytes_eq_refl ys))
