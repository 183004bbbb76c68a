-- ===== src/Kora/Rpc.antt =====
-- `JsonRpc`: requests to the two services. A reply may depend on everything that was requested before,
-- so a run passes on the log of its requests, the latest first.
pub mod Quiet
use enclavekit_anchor.Common.{List, [], ◌∷◌}
use mathlib.Core.Option.{Option, none, some}
use enclavekit_anchor.Vectors.Text.{Text, codes, Value, text, number, object, end_members, member}
use enclavekit_anchor.Kora.Json.{get}

pub record Request : Type 0 where
  pub url : Text
  pub method : Text
  pub params : Value

abbrev pub Log : Type 0
Log = List Request

-- What a POST of a body to an address gives after these requests: the JSON of the reply, or none where
-- there is no reply or no JSON.
abbrev pub Net : Type 0
Net = Log → Text → Value → Option Value

-- A computation with `?`: none is an error, or a panic of the dev profile.
abbrev pub Run {ℓ} : Type ℓ → Type ℓ
Run A = Log → Option A × Log

abbrev pub proceed {ℓ κ} : {A : Type ℓ} {B : Type κ} → Option A × Log → (A → Run B) → Option B × Log
proceed (none, log) next = (none, log)
proceed (some a, log) next = next a log

infixl 5 ◌>>=◌
abbrev pub ◌>>=◌ {ℓ κ} : {A : Type ℓ} {B : Type κ} → Run A → (A → Run B) → Run B
(run >>= next) log = proceed (run log) next

-- `Option::and_then`
abbrev pub and_then {ℓ κ} : {A : Type ℓ} {B : Type κ} → Option A → (A → Option B) → Option B
and_then none next = none
and_then (some a) next = next a

-- What needs no request.
abbrev pub pure_of {ℓ} : {A : Type ℓ} → Option A → Run A
pure_of o log = (o, log)

-- The body of a call.
unfoldable pub body : Text → Value → Value
body method params = object (
    member (codes "jsonrpc") (text (codes "2.0")) (
      member (codes "id") (number 1)
        (member (codes "method") (text method) (member (codes "params") params end_members))))

unfoldable pub result_of : Option Value → Value → Option Value
unfolding get
result_of (some error) reply = none
result_of none reply = get reply (codes "result")

unfoldable pub answer : Option Value → Option Value
unfolding result_of
answer none = none
answer (some reply) = result_of (get reply (codes "error")) reply

-- `JsonRpc::call`
unfoldable pub call : Net → Text → Text → Value → Run Value
unfolding body answer
call net url method params log = (
  answer (net log url (body method params)),
  record { url = url; method = method; params = params } ∷ log,
)
