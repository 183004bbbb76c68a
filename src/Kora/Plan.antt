-- ===== src/Kora/Plan.antt =====
-- What the run asks of the vault and of the relayer.
use enclavekit_anchor.Common.{ℕ, ◌+◌, ◌-◌, ◌≤◌, ◌^◌, ltb, ◌≡◌, ◌≢◌, ap, arith, if◌then◌else◌}
use mathlib.Core.Option.{Option, none, some}
use enclavekit_anchor.Program.Errors.{ok}
use enclavekit_anchor.Program.Events.{SolTransferred}
use enclavekit_anchor.Program.Platform.{Sysvars, Platform, Bank}
use enclavekit_anchor.Program.Authorization.{Authorization}
use enclavekit_anchor.Program.Instructions.Outcome.{Outcome, Bumps}
use enclavekit_anchor.Program.Instructions.TransferSol.{TransferSol, transfer}
use enclavekit_anchor.Program.Instructions.TransferSol.Transferred.{transfer-IsTransferred}
use enclavekit_anchor.Program.Instructions.TransferSol.Vault.{transfer_keeps_rent}
use enclavekit_anchor.Vectors.Text.{◌>>=◌}

abbrev pub lamports : ℕ
lamports = 10000000

abbrev pub vault_reserve : ℕ
vault_reserve = 5000000

abbrev pub transaction_fee : ℕ
transaction_fee = 10000

-- An addition of `u64` in the dev profile, where an overflow is a panic.
abbrev pub add_u64 : ℕ → ℕ → Option ℕ
add_u64 a b = if ltb (a + b) (2 ^ 64) then some (a + b) else none

-- The rent of the state that the first use makes.
unfoldable pub state_rent : Option ℕ → Option ℕ → Option ℕ
state_rent (some nonce) rent = some 0
state_rent none rent = rent

abbrev pub nonce_or_zero : Option ℕ → ℕ
nonce_or_zero (some nonce) = nonce
nonce_or_zero none = 0

-- `relayer_fee` and `needed`, from the rent.
unfoldable pub fees : ℕ → Option (ℕ × ℕ)
fees rent = do
  relayer_fee ← add_u64 rent transaction_fee
  sent ← add_u64 lamports relayer_fee
  needed ← add_u64 sent vault_reserve
  some (relayer_fee, needed)

-- What `fund` is asked for, where the vault holds too little.
abbrev pub top_up : ℕ → ℕ → Option ℕ
top_up held needed = if ltb held needed then some (needed - held) else none

pub record Plan : Type 0 where
  pub nonce : ℕ
  pub relayer_fee : ℕ
  pub needed : ℕ
  -- The call of `fund`, where there is one.
  pub funded : Option ℕ

-- Steps 2 and 3 of `main`, from the nonce read, the rent asked and the vault's balance.
unfoldable pub plan : Option ℕ → Option ℕ → ℕ → Option Plan
unfolding state_rent fees
plan read rent held = do
  rent ← state_rent read rent
  (relayer_fee, needed) ← fees rent
  some (record {
    nonce = nonce_or_zero read;
    relayer_fee = relayer_fee;
    needed = needed;
    funded = top_up held needed;
  })

-- The vault's balance once `fund` is confirmed.
abbrev pub balance_after : ℕ → Option ℕ → ℕ
balance_after held none = held
balance_after held (some n) = held + n

-- The plan's sums.
plan-needed :
    (read rent : Option ℕ) (held : ℕ) (r : Plan)
    → plan read rent held ≡ some r
    → (r.needed ≡ lamports + r.relayer_fee + vault_reserve)
      × (transaction_fee ≤ r.relayer_fee)
      × (r.needed ≤ balance_after held r.funded)
unfolding plan
plan-needed read rent held r h = ground arith

module _ (p : Platform) (sys : Sysvars) (self : TransferSol) (auth : Authorization) (bumps : Bumps)
    (bank : Bank) (read rent : Option ℕ) (held : ℕ) (r : Plan) where
  -- A vault topped up as planned covers the transfer's check, whatever rent up to the reserve a vault
  -- needs; and when the transfer with the planned fee succeeds, from a vault that is neither the
  -- destination nor the relayer, the relayer is refunded the whole fee, and the vault keeps the reserve.
  pub plan_leaves_reserve :
      (o : Outcome SolTransferred) (vault_rent : ℕ)
      → plan read rent held ≡ some r
      → auth.max_relayer_fee ≡ r.relayer_fee
      → bank self.vault ≡ balance_after held r.funded
      → self.vault ≢ self.to
      → self.vault ≢ self.relayer
      → sys.rent_minimum ≡ ok vault_rent
      → transfer p sys self auth lamports r.relayer_fee bumps bank ≡ ok o
      → (lamports + auth.max_relayer_fee + vault_reserve ≤ bank self.vault)
        × (o.event.relayer_fee ≡ r.relayer_fee)
        × (vault_reserve ≤ o.bank self.vault)
        × (transaction_fee ≤ o.event.relayer_fee)
  plan_leaves_reserve o vault_rent planned cap funded vt vr minimum h =
      let (needed, fee, enough) = plan-needed read rent held r planned in
      let t = transfer-IsTransferred p sys self auth lamports r.relayer_fee bumps bank o h in
      let refund = ap (λ (e : SolTransferred). e.relayer_fee) t.told in
      let (kept, _, _, _) =
        transfer_keeps_rent p sys self auth lamports r.relayer_fee bumps bank vt vr o vault_rent
          minimum h in
      (omega arith, omega arith, omega arith, omega arith)
