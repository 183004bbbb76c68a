-- ===== src/Program/Lifecycle/Vault.antt =====
-- A vault's lamports over any sequence of instructions, on its own wallet and on others, while the owner
-- signs nothing.
use enclavekit_anchor.Common.{ℕ, ◌+◌, ◌≤◌, Bytes, false, ◌≡◌, ◌≢◌, inl, inr, arith}
use enclavekit_anchor.Program.Errors.{ok}
use enclavekit_anchor.Program.State.{is_new}
use enclavekit_anchor.Program.Platform.{Sysvars, Platform, Bank}
use enclavekit_anchor.Program.Precompile.{SignedPayload, load_secp256r1_payload}
use enclavekit_anchor.Program.Authorization.{Authorization}
use enclavekit_anchor.Program.Instructions.Payers.{HasRun, only_vault_pays}
use enclavekit_anchor.Program.Instructions.Spenders.{wallet_of, spent_by_signer}

module _ (p : Platform) (vault : Bytes) where
  -- What happens to the lamports from one balance of every address to another, and the sum of the fee
  -- caps that were signed for this vault's wallet.
  pub data Passes (before : Bank) : Bank → ℕ → Type 0 where
    start : Passes before before 0
    -- An instruction of the wallet, in use, that another key than its active key signed.
    unowned :
        {bank after : Bank} {caps : ℕ}
        → Passes before bank caps
        → (sys : Sysvars) (auth : Authorization) (relayer_fee : ℕ)
          (run : HasRun p sys auth relayer_fee bank vault after)
        → is_new (wallet_of run) ≡ false
        → ((payload : SignedPayload)
            → load_secp256r1_payload sys.previous_instruction ≡ ok payload
            → payload.pubkey ≢ (wallet_of run).active_key)
        → Passes before after (caps + auth.max_relayer_fee)
    -- An instruction of another vault's wallet, whoever signed.
    elsewhere :
        {bank after : Bank} {caps : ℕ}
        → Passes before bank caps
        → (sys : Sysvars) (auth : Authorization) (relayer_fee : ℕ) (other : Bytes)
        → HasRun p sys auth relayer_fee bank other after
        → vault ≢ other
        → Passes before after caps
    -- A confirmation, which pays nothing, or a deposit of anyone's.
    credited :
        {bank after : Bank} {caps : ℕ}
        → Passes before bank caps
        → bank vault ≤ after vault
        → Passes before after caps

  -- While a wallet stays in use and its owner signs nothing, whatever others sign, for this wallet and
  -- for any other, its vault loses no more than the fee caps that were signed for it, all together.
  pub unowned_keeps :
      {before after : Bank} {caps : ℕ}
      → Passes before after caps
      → before vault ≤ after vault + caps
  unowned_keeps start = omega arith
  unowned_keeps (unowned {bank} {after} {caps} passed sys auth relayer_fee run used not_owner) =
      let so_far = unowned_keeps passed in
      let (payload, loaded, by) =
        spent_by_signer p sys auth relayer_fee bank vault after run used in
      elim by [
        | inl active ↦ absurd (not_owner payload loaded active)
        | inr (slot, named, most) ↦ omega (arith, so_far, most)
      ]
  unowned_keeps (elsewhere {bank} {after} {caps} passed sys auth relayer_fee other run apart) =
      let so_far = unowned_keeps passed in
      omega (arith, so_far, only_vault_pays p sys auth relayer_fee bank other vault after run apart)
  unowned_keeps (credited passed up) = omega (arith, unowned_keeps passed, up)
