-- ===== src/Examples/Transfers.antt =====
-- A concrete System program: a transfer succeeds if the sender has the lamports.
use enclavekit_anchor.Common.{ℕ, ◌≤◌, Bytes, List, leb, le→leb, if◌then◌else◌, ◌≡◌, arith}
use enclavekit_anchor.Program.Errors.{Result, ok, err, platform}
use enclavekit_anchor.Program.Platform.{Bank, move}

unfoldable pub transfer_if_funded : List Bytes → Bytes → Bytes → ℕ → Bank → Result Bank
transfer_if_funded seeds from to n b =
    if leb n (b from) then ok (move from to n b) else err (platform 1)

module _ (seeds : List Bytes) (from to : Bytes) (n : ℕ) (b : Bank) where
  pub transfer_if_funded_moves :
      (b' : Bank)
      → transfer_if_funded seeds from to n b ≡ ok b'
      → (n ≤ b from) × (b' ≡ move from to n b)
  unfolding transfer_if_funded
  transfer_if_funded_moves b' h = ground arith

  pub transfer_if_funded_accepts :
      n ≤ b from → transfer_if_funded seeds from to n b ≡ ok (move from to n b)
  unfolding transfer_if_funded
  transfer_if_funded_accepts h = rw (le→leb n (b from) h)
