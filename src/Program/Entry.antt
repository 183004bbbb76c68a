-- ===== src/Program/Entry.antt =====
-- programs/enclavekit/src/lib.rs: the handlers. Each builds the authorization, runs the method on
-- the accounts and emits its event; a wallet's first action emits `WalletCreated` before.
pub mod Announced
pub mod Created
use enclavekit_anchor.Common.{ℕ, ℤ, Bytes, Bool, List, [], ◌∷◌, if◌then◌else◌}
use enclavekit_anchor.Program.Errors.{Result, ok, ◌>>=◌}
use enclavekit_anchor.Program.State.{SmartWallet, Guardian, is_new}
use enclavekit_anchor.Program.Events.{
  Event, wallet_created, sol_transferred, vault_swept, wallet_closed, guardians_set,
  rotation_proposed, rotation_cancelled, key_rotated,
}
use enclavekit_anchor.Program.Platform.{Sysvars, Platform, Bank}
use enclavekit_anchor.Program.Authorization.{Authorization}
use enclavekit_anchor.Program.Instructions.Outcome.{Outcome, Bumps}
use enclavekit_anchor.Program.Instructions.TransferSol.{TransferSol, transfer}
use enclavekit_anchor.Program.Instructions.SweepVault.{SweepVault, sweep}
use enclavekit_anchor.Program.Instructions.SetGuardians.{SetGuardians}
use enclavekit_anchor.Program.Instructions.SetGuardians
use enclavekit_anchor.Program.Instructions.CancelRotation.{CancelRotation, cancel}
use enclavekit_anchor.Program.Instructions.ProposeRotation.{ProposeRotation, Proposal, propose}
use enclavekit_anchor.Program.Instructions.ConfirmRotation.{ConfirmRotation, confirm}
use enclavekit_anchor.Program.Instructions.CloseWallet.{CloseWallet, close}

-- The events of an outcome, the one of a created wallet first.
abbrev pub emitted : Bool → Bytes → SmartWallet → Event → List Event
emitted created wallet_id wallet event =
    if created
    then wallet_created (record { wallet_id = wallet_id; key = wallet.active_key }) ∷ event ∷ []
    else event ∷ []

-- `match propose(..) { Rotated(event) => .., Pending(event) => .. }`
abbrev pub proposal_event : Proposal → Event
proposal_event (Proposal.rotated e) = key_rotated e
proposal_event (Proposal.pending e) = rotation_proposed e

abbrev pub with_events :
    {E : Type 0} → (SmartWallet → E → List Event) → Outcome E → Outcome (List Event)
with_events f o = record { event = f o.wallet o.event; wallet = o.wallet; bank = o.bank }

module _ (p : Platform) (sys : Sysvars) where
  unfoldable pub transfer_sol :
      TransferSol → Bumps → Bytes → ℕ → ℤ → ℕ → ℕ → ℕ → Bank → Result (Outcome (List Event))
  transfer_sol accounts bumps wallet_id nonce expires_at max_relayer_fee lamports relayer_fee bank =
      let authorization : Authorization = record {
        wallet_id = wallet_id;
        nonce = nonce;
        expires_at = expires_at;
        max_relayer_fee = max_relayer_fee;
      } in
      let created = is_new accounts.wallet in
      do
        o ← transfer p sys accounts authorization lamports relayer_fee bumps bank
        ok (with_events (λ w e. emitted created wallet_id w (sol_transferred e)) o)

  unfoldable pub set_guardians :
      SetGuardians
      → Bumps
      → Bytes
      → ℕ
      → ℤ
      → ℕ
      → List Guardian
      → ℕ
      → Bank
      → Result (Outcome (List Event))
  set_guardians accounts bumps wallet_id nonce expires_at max_relayer_fee guardians relayer_fee
        bank =
      let authorization : Authorization = record {
        wallet_id = wallet_id;
        nonce = nonce;
        expires_at = expires_at;
        max_relayer_fee = max_relayer_fee;
      } in
      let created = is_new accounts.wallet in
      do
        o ← SetGuardians.set_guardians p sys accounts authorization guardians relayer_fee bumps bank
        ok (with_events (λ w e. emitted created wallet_id w (guardians_set e)) o)

  unfoldable pub cancel_rotation :
      CancelRotation → Bytes → ℕ → ℤ → ℕ → ℕ → Bank → Result (Outcome (List Event))
  cancel_rotation accounts wallet_id nonce expires_at max_relayer_fee relayer_fee bank =
      let authorization : Authorization = record {
        wallet_id = wallet_id;
        nonce = nonce;
        expires_at = expires_at;
        max_relayer_fee = max_relayer_fee;
      } in
      do
        o ← cancel p sys accounts authorization relayer_fee bank
        ok (with_events (λ w e. rotation_cancelled e ∷ []) o)

  unfoldable pub propose_rotation :
      ProposeRotation → Bytes → ℕ → ℤ → ℕ → Bytes → ℕ → Bank → Result (Outcome (List Event))
  propose_rotation accounts wallet_id nonce expires_at max_relayer_fee new_key relayer_fee bank =
      let authorization : Authorization = record {
        wallet_id = wallet_id;
        nonce = nonce;
        expires_at = expires_at;
        max_relayer_fee = max_relayer_fee;
      } in
      do
        o ← propose p sys accounts authorization new_key relayer_fee bank
        ok (with_events (λ w e. proposal_event e ∷ []) o)

  unfoldable pub confirm_rotation : ConfirmRotation → Bytes → Bank → Result (Outcome (List Event))
  confirm_rotation accounts wallet_id bank = do
    o ← confirm sys accounts bank
    ok (with_events (λ w e. key_rotated e ∷ []) o)

  unfoldable pub sweep_vault :
      SweepVault → Bumps → Bytes → ℕ → ℤ → ℕ → ℕ → Bank → Result (Outcome (List Event))
  sweep_vault accounts bumps wallet_id nonce expires_at max_relayer_fee relayer_fee bank =
      let authorization : Authorization = record {
        wallet_id = wallet_id;
        nonce = nonce;
        expires_at = expires_at;
        max_relayer_fee = max_relayer_fee;
      } in
      let created = is_new accounts.wallet in
      do
        o ← sweep p sys accounts authorization relayer_fee bumps bank
        ok (with_events (λ w e. emitted created wallet_id w (vault_swept e)) o)

  unfoldable pub close_wallet :
      CloseWallet → Bytes → ℕ → ℤ → ℕ → ℕ → Bank → Result (Outcome (List Event))
  close_wallet accounts wallet_id nonce expires_at max_relayer_fee relayer_fee bank =
      let authorization : Authorization = record {
        wallet_id = wallet_id;
        nonce = nonce;
        expires_at = expires_at;
        max_relayer_fee = max_relayer_fee;
      } in
      do
        o ← close p sys accounts authorization relayer_fee bank
        ok (with_events (λ w e. wallet_closed e ∷ []) o)
