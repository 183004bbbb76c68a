-- ===== src/Kora/Json.antt =====
-- What the example reads out of a JSON value: `serde_json`'s indexing, and its own two readers.
use enclavekit_anchor.Common.{ℕ, zero, suc, bytes_eq, if◌then◌else◌}
use mathlib.Core.Option.{Option, none, some}
use enclavekit_anchor.Vectors.Text.{
  Text, Value, Items, Members, null, boolean, text, number, other_number, array, object, end_items,
  item, end_members, member,
}

unfoldable pub find_member : Text → Members → Option Value
find_member name end_members = none
find_member name (member other v rest) =
    if bytes_eq other name then some v else find_member name rest

-- `Value::get` with a name
unfoldable pub get : Value → Text → Option Value
unfolding find_member
get (object members) name = find_member name members
get null name = none
get (boolean _) name = none
get (text _) name = none
get (number _) name = none
get other_number name = none
get (array _) name = none

abbrev pub or_null : Option Value → Value
or_null none = null
or_null (some v) = v

-- `value[name]`, null where there is no such member
unfoldable pub at_name : Value → Text → Value
unfolding get
at_name v name = or_null (get v name)

unfoldable pub find_item : ℕ → Items → Value
find_item i end_items = null
find_item zero (item v rest) = v
find_item (suc i) (item v rest) = find_item i rest

-- `value[index]`
unfoldable pub at_index : Value → ℕ → Value
unfolding find_item
at_index (array items) i = find_item i items
at_index null i = null
at_index (boolean _) i = null
at_index (text _) i = null
at_index (number _) i = null
at_index other_number i = null
at_index (object _) i = null

-- `Value::as_str`
unfoldable pub as_str : Value → Option Text
as_str (text t) = some t
as_str null = none
as_str (boolean _) = none
as_str (number _) = none
as_str other_number = none
as_str (array _) = none
as_str (object _) = none

-- `str_field` of a name; it is called with the index 0 too, which is `str_item`.
unfoldable pub str_field : Value → Text → Option Text
unfolding at_name as_str
str_field v name = as_str (at_name v name)

unfoldable pub str_item : Value → ℕ → Option Text
unfolding at_index as_str
str_item v i = as_str (at_index v i)

-- `u64_of`
unfoldable pub u64_of : Value → Option ℕ
u64_of (number n) = some n
u64_of null = none
u64_of (boolean _) = none
u64_of (text _) = none
u64_of other_number = none
u64_of (array _) = none
u64_of (object _) = none

-- `is_null`, on what an index gave
unfoldable pub non_null : Value → Option Value
non_null null = none
non_null (boolean b) = some (boolean b)
non_null (text t) = some (text t)
non_null (number n) = some (number n)
non_null other_number = some other_number
non_null (array items) = some (array items)
non_null (object members) = some (object members)
