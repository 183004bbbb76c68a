-- ===== src/Program/Authorization/Payments.antt =====
-- Payments from the vault: what a success did to the balances, and when it succeeds.
use enclavekit_anchor.Common.{ℕ, ◌+◌, ◌-◌, ◌≤◌, ◌<◌, ◌^◌, min, Bytes, true, ◌≡◌, ◌≢◌, ◌∙◌, ap}
use mathlib.Core.Option.{some}
use enclavekit_anchor.Program.Errors.{Result, ok, >>=-eq-ok}
use enclavekit_anchor.Program.State.{SmartWallet}
use enclavekit_anchor.Program.Platform.{Platform, Bank, move}
use enclavekit_anchor.Program.Platform.Moves.{move_sender}
use enclavekit_anchor.Program.Authorization.{vault_seeds, transfer_from_vault, refund_relayer}

module _ (p : Platform) (wallet : SmartWallet) (vault : Bytes) where
  pub transfer_from_vault_moves :
      (to : Bytes) (n : ℕ) (b b' : Bank)
      → transfer_from_vault p wallet vault to n b ≡ ok b'
      → (n ≤ b vault) × (b' ≡ move vault to n b)
  unfolding transfer_from_vault
  transfer_from_vault_moves to n b b' h = p.transfer_moves (vault_seeds wallet) vault to n b b' h

  pub transfer_from_vault_accepts :
      (to : Bytes) (n : ℕ) (b : Bank)
      → p.create_program_address (vault_seeds wallet) ≡ some vault
      → p.is_payable to ≡ true
      → n ≤ b vault
      → b to + n < 2 ^ 64
      → transfer_from_vault p wallet vault to n b ≡ ok (move vault to n b)
  unfolding transfer_from_vault
  transfer_from_vault_accepts to n b seeds pays has fits =
      p.transfer_accepts (vault_seeds wallet) vault to n b seeds pays has fits

  pub refund_relayer_moves :
      (relayer : Bytes) (fee cap : ℕ) (b b' : Bank) (paid : ℕ)
      → refund_relayer p wallet vault relayer fee cap b ≡ ok (paid, b')
      → (paid ≡ min fee cap) × (min fee cap ≤ b vault) × (b' ≡ move vault relayer (min fee cap) b)
  unfolding refund_relayer
  refund_relayer_moves relayer fee cap b b' paid h =
      let (b1, moved, h1) = >>=-eq-ok _ _ h in
      let (has, e) = p.transfer_moves (vault_seeds wallet) vault relayer (min fee cap) b b1 moved in
      (last h1, has, cc (e, last_bank h1))
    where
      last :
          {b1 : Bank}
          → ◌≡◌ {A = Result (ℕ × Bank)} (ok (min fee cap, b1)) (ok (paid, b'))
          → paid ≡ min fee cap
      last e = cc

      last_bank :
          {b1 : Bank} → ◌≡◌ {A = Result (ℕ × Bank)} (ok (min fee cap, b1)) (ok (paid, b')) → b1 ≡ b'
      last_bank e = cc

  pub refund_relayer_accepts :
      (relayer : Bytes) (fee cap : ℕ) (b : Bank)
      → p.create_program_address (vault_seeds wallet) ≡ some vault
      → p.is_payable relayer ≡ true
      → min fee cap ≤ b vault
      → b relayer + min fee cap < 2 ^ 64
      → refund_relayer p wallet vault relayer fee cap b
        ≡ ok (min fee cap, move vault relayer (min fee cap) b)
  unfolding refund_relayer transfer_from_vault
  refund_relayer_accepts relayer fee cap b seeds pays has fits =
      rw (p.transfer_accepts (vault_seeds wallet) vault relayer (min fee cap) b seeds pays has fits)

  -- Two payments in a row, to two addresses that are not the vault.
  pub two_moves_sender :
      (x y : Bytes) (m n : ℕ) (b : Bank)
      → vault ≢ x
      → vault ≢ y
      → move vault y n (move vault x m b) vault ≡ b vault - m - n
  two_moves_sender x y m n b vx vy =
      move_sender vault y n (move vault x m b) vy
      ∙ ap (λ (t : ℕ). t - n) (move_sender vault x m b vx)
