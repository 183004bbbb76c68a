-- ===== src/Program/Entry/Created.antt =====
-- The three handlers that may make a wallet, and the events that they emit.
use enclavekit_anchor.Common.{ℕ, ℤ, Bytes, Bool, List, ◌≡◌, refl}
use enclavekit_anchor.Program.Errors.{ok}
use enclavekit_anchor.Program.State.{Guardian, is_new}
use enclavekit_anchor.Program.Events.{
  Event, SolTransferred, VaultSwept, GuardiansSet, sol_transferred, vault_swept, guardians_set,
}
use enclavekit_anchor.Program.Platform.{Sysvars, Platform, Bank}
use enclavekit_anchor.Program.Instructions.Outcome.{Outcome, Bumps}
use enclavekit_anchor.Program.Instructions.TransferSol.{TransferSol}
use enclavekit_anchor.Program.Instructions.SweepVault.{SweepVault}
use enclavekit_anchor.Program.Instructions.SetGuardians.{SetGuardians}
use enclavekit_anchor.Program.Entry.{transfer_sol, sweep_vault, set_guardians}
use enclavekit_anchor.Program.Entry.Announced.{
  IsAnnounced, transfer_sol-IsAnnounced, sweep_vault-IsAnnounced, set_guardians-IsAnnounced,
}

module _ (p : Platform) (sys : Sysvars) (bumps : Bumps) (wallet_id : Bytes) (nonce : ℕ)
    (expires_at : ℤ) (max_relayer_fee relayer_fee : ℕ) (bank : Bank) where
  -- A handler with `init_if_needed` that succeeded, and whether its wallet was just made.
  pub data HasHandled (created : Bool) (o : Outcome (List Event)) : Type 0 where
    transferred :
        (accounts : TransferSol) (lamports : ℕ)
        → created ≡ is_new accounts.wallet
        → transfer_sol p sys accounts bumps wallet_id nonce expires_at max_relayer_fee lamports
            relayer_fee bank
          ≡ ok o
        → HasHandled created o
    swept :
        (accounts : SweepVault)
        → created ≡ is_new accounts.wallet
        → sweep_vault p sys accounts bumps wallet_id nonce expires_at max_relayer_fee relayer_fee
            bank
          ≡ ok o
        → HasHandled created o
    replaced :
        (accounts : SetGuardians) (guardians : List Guardian)
        → created ≡ is_new accounts.wallet
        → set_guardians p sys accounts bumps wallet_id nonce expires_at max_relayer_fee guardians
            relayer_fee bank
          ≡ ok o
        → HasHandled created o

  -- The event tells what the request asked for.
  abbrev pub Tells :
      {created : Bool} {o : Outcome (List Event)} → HasHandled created o → Event → Type 0
  Tells (transferred accounts lamports _ _) event =
      (e : SolTransferred) × (event ≡ sol_transferred e)
      × (e.to ≡ accounts.to)
      × (e.lamports ≡ lamports)
  Tells (swept accounts _ _) event =
      (e : VaultSwept) × (event ≡ vault_swept e) × (e.to ≡ accounts.to)
  Tells (replaced accounts guardians _ _) event =
      (e : GuardiansSet) × (event ≡ guardians_set e) × (e.guardians ≡ guardians)

  -- A transfer, a sweep or a new list of guardians that succeeds emits the event of what was asked:
  -- the destination and the lamports, the destination, or the guardians. Before it, exactly if the
  -- wallet was just made, it emits the creation of the wallet, whose id is the hash of its key.
  pub HasHandled-IsAnnounced :
      (created : Bool) (o : Outcome (List Event)) (h : HasHandled created o)
      → (event : Event) × Tells h event × IsAnnounced p created wallet_id o.wallet event o.event
  HasHandled-IsAnnounced created o (transferred accounts lamports new ran) =
      let (e, to, amount, all) =
        transfer_sol-IsAnnounced p sys accounts bumps wallet_id nonce expires_at max_relayer_fee
          lamports relayer_fee bank o ran in
      (sol_transferred e, (e, refl, to, amount), rw new all)
  HasHandled-IsAnnounced created o (swept accounts new ran) =
      let (e, to, all) =
        sweep_vault-IsAnnounced p sys accounts bumps wallet_id nonce expires_at max_relayer_fee
          relayer_fee bank o ran in
      (vault_swept e, (e, refl, to), rw new all)
  HasHandled-IsAnnounced created o (replaced accounts guardians new ran) =
      let (e, same, all) =
        set_guardians-IsAnnounced p sys accounts bumps wallet_id nonce expires_at max_relayer_fee
          guardians relayer_fee bank o ran in
      (guardians_set e, (e, refl, same), rw new all)
