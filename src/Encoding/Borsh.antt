-- ===== src/Encoding/Borsh.antt =====
-- The borsh encoding of an action. The `borsh` crate is not part of the repository: its derived
-- serialiser and parser are parameters, with the round trip that action.rs tests.
use enclavekit_anchor.Common.{Bytes, ◌≡◌, ap}
use mathlib.Core.Option.{Option, some}
use enclavekit_anchor.Encoding.Action.{Action, IsAction}

pub record Borsh : Type 0 where
  pub serialize : Action → Bytes
  pub try_from_slice : Bytes → Option Action
  pub round_trip : (a : Action) → IsAction a → try_from_slice (serialize a) ≡ some a

-- Two actions of the declared sizes with one encoding are equal.
pub serialize_injective :
    (borsh : Borsh) (a b : Action)
    → IsAction a
    → IsAction b
    → borsh.serialize a ≡ borsh.serialize b
    → a ≡ b
serialize_injective borsh a b ha hb e =
    cc (ap borsh.try_from_slice e, borsh.round_trip a ha, borsh.round_trip b hb)
