-- ===== src/Kora/Rpc/Quiet.antt =====
-- Runs with a bound on their requests that do not ask the relayer to sign and send.
use enclavekit_anchor.Common.{
  ℕ, suc, ◌+◌, ◌≤◌, Bool, false, bytes_eq, List, [], ◌∷◌, length, ◌≡◌, refl, ◌∙◌, arith,
  if◌then◌else◌,
}
use mathlib.Core.Option.{Option, none, some}
use enclavekit_anchor.Vectors.Text.{Text, codes, Value}
use enclavekit_anchor.Kora.Rpc.{Request, Log, Net, Run, proceed, call}

-- Whether a request asks the relayer to sign and send.
abbrev pub is_relay : Request → Bool
is_relay r = bytes_eq r.method (codes "signAndSendTransaction")

-- What the relayer was asked to sign and send, the latest first.
unfoldable pub relays : Log → List Value
relays [] = []
relays (r ∷ log) = let rest = relays log in if is_relay r then r.params ∷ rest else rest

abbrev pub AtMost : ℕ → Log → Log → Type 0
AtMost n log after = (length after ≤ length log + n) × (relays after ≡ relays log)

-- Every start of the run leads to no more than these requests, and none of them asks the relayer.
abbrev pub IsQuiet {ℓ} : {A : Type ℓ} → ℕ → Run A → Type 0
IsQuiet n run = (log : Log) → AtMost n log (run log).1

pub proceed-AtMost {ℓ κ} :
    {A : Type ℓ} {B : Type κ} (n k : ℕ) (log : Log) (r : Option A × Log) (next : A → Run B)
    → AtMost n log r.1
    → ((a : A) → IsQuiet k (next a))
    → AtMost (n + k) log (proceed r next).1
proceed-AtMost n k log (none, after) next (few, same) h = (omega arith, same)
proceed-AtMost n k log (some a, after) next (few, same) h =
    let (fewer, as_before) = h a after in (omega arith, as_before ∙ same)

-- What asks nothing.
pub same-AtMost : (n : ℕ) (log : Log) → AtMost n log log
same-AtMost n log = (omega arith, refl)

-- A run that starts from no request of its own.
pub pure-AtMost {ℓ κ} :
    {A : Type ℓ} {B : Type κ} (n : ℕ) (log : Log) (o : Option A) (next : A → Run B)
    → ((a : A) → AtMost n log (next a log).1)
    → AtMost n log (proceed (o, log) next).1
pure-AtMost n log none next h = same-AtMost n log
pure-AtMost n log (some a) next h = h a

pub call-AtMost :
    (net : Net) (url method : Text) (params : Value) (log : Log)
    → bytes_eq method (codes "signAndSendTransaction") ≡ false
    → AtMost 1 log (call net url method params log).1
unfolding call relays
call-AtMost net url method params log other = (omega arith, rw other refl)

-- A call of another method, and what follows.
pub call_then {ℓ} :
    {B : Type ℓ} (n : ℕ) (net : Net) (url method : Text) (params : Value) (log : Log)
    (next : Value → Run B)
    → bytes_eq method (codes "signAndSendTransaction") ≡ false
    → ((v : Value) → IsQuiet n (next v))
    → AtMost (suc n) log (proceed (call net url method params log) next).1
call_then n net url method params log next other h =
    let (few, same) =
      proceed-AtMost 1 n log (call net url method params log) next
        (call-AtMost net url method params log other) h in
    (omega arith, same)

-- The call that asks the relayer, and what follows.
pub relay_then {ℓ} :
    {B : Type ℓ} (n : ℕ) (net : Net) (url : Text) (params : Value) (log : Log)
    (next : Value → Run B)
    → ((v : Value) → IsQuiet n (next v))
    → (length (proceed (call net url (codes "signAndSendTransaction") params log) next).1
        ≤ length log + suc n)
      × (relays (proceed (call net url (codes "signAndSendTransaction") params log) next).1
          ≡ params ∷ relays log)
unfolding call relays bytes_eq
relay_then n net url params log next h =
    let request : Request = record {
      url = url;
      method = codes "signAndSendTransaction";
      params = params;
    } in
    let (few, same) =
      proceed-AtMost 0 n (request ∷ log) (call net url (codes "signAndSendTransaction") params log)
        next (same-AtMost 0 (request ∷ log)) h in
    (omega arith, same)
