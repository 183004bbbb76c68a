-- ===== src/Vectors/Text.antt =====
-- Text, bytes as hexadecimal text, and JSON values, as the vectors use them.
use Prim.Native.Char.{code}
use Prim.Native.String.{String}
use enclavekit_anchor.Common.{ℕ, ◌+◌, ◌-◌, ◌/◌, ◌%◌, Bytes, Bool, List, [], ◌∷◌, ltb, if◌then◌else◌}
use mathlib.Core.Option.{Option, none, some}

-- Text that is ASCII, as its bytes.
abbrev pub Text : Type 0
Text = List ℕ

abbrev pub codes : String → Text
codes String.[] = []
codes (String.◌∷◌ c s) = code c ∷ codes s

-- One digit of `{b:02x}`.
unfoldable pub hex_digit : ℕ → ℕ
hex_digit d = if ltb d 10 then b'0' + d else b'a' + (d - 10)

unfoldable pub hex : Bytes → Text
unfolding hex_digit
hex [] = []
hex (b ∷ bytes) = hex_digit (b / 16) ∷ hex_digit (b % 16) ∷ hex bytes

-- Bytes that are written as hexadecimal text.
pub record Hex : Type 0 where
  pub bytes : Bytes

-- `Serialize for Hex`
unfoldable pub serialized_hex : Hex → Text
unfolding hex
serialized_hex h = hex h.bytes

-- JSON values. A number that is no `u64` is not told from others. The names of an object differ, as
-- in the maps of `serde_json`.
mutual
  pub data Value : Type 0 where
    null : Value
    boolean : Bool → Value
    text : Text → Value
    number : ℕ → Value
    other_number : Value
    array : Items → Value
    object : Members → Value

  pub data Items : Type 0 where
    end_items : Items
    item : Value → Items → Items

  pub data Members : Type 0 where
    end_members : Members
    member : Text → Value → Members → Members

-- A run of the generator: `none` is a panic, by `expect` or by `todo!`.
infixl 5 ◌>>=◌
abbrev pub ◌>>=◌ {ℓ κ} : {A : Type ℓ} {B : Type κ} → Option A → (A → Option B) → Option B
none >>= next = none
some value >>= next = next value

-- The calls of `map(..).collect()`, where each may panic.
unfoldable pub map_each {ℓ κ} :
    {A : Type ℓ} {B : Type κ} → (A → Option B) → List A → Option (List B)
map_each f [] = some []
map_each f (x ∷ xs) = do y ← f x; ys ← map_each f xs; some (y ∷ ys)
