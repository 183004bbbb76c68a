-- ===== src/Program/Entry/Announced.antt =====
-- What the handlers that can create a wallet emit.
use enclavekit_anchor.Common.{
  ℕ, ℤ, Bytes, Bool, true, false, List, [], ◌∷◌, ◌≡◌, refl, ap, ◌∙◌, subst,
}
use enclavekit_anchor.Encoding.Action.{Action}
use enclavekit_anchor.Program.Errors.{ok, bind_ok, ok_injective}
use enclavekit_anchor.Program.State.{SmartWallet, Guardian, is_new}
use enclavekit_anchor.Program.Events.{
  Event, wallet_created, sol_transferred, vault_swept, guardians_set, SolTransferred, VaultSwept,
  GuardiansSet,
}
use enclavekit_anchor.Program.Platform.{Sysvars, Platform, Bank}
use enclavekit_anchor.Program.Authorization.{
  Authorization, first_wallet, verify_enclave_authorization,
}
use enclavekit_anchor.Program.Authorization.Accepted.{verify_first_use}
use enclavekit_anchor.Program.Instructions.Outcome.{Outcome, Bumps}
use enclavekit_anchor.Program.Instructions.TransferSol.{TransferSol, transfer}
use enclavekit_anchor.Program.Instructions.TransferSol.Transferred.{transfer-IsTransferred}
use enclavekit_anchor.Program.Instructions.SweepVault.{SweepVault, sweep}
use enclavekit_anchor.Program.Instructions.SweepVault.Swept.{sweep-IsSwept}
use enclavekit_anchor.Program.Instructions.SetGuardians.{SetGuardians}
use enclavekit_anchor.Program.Instructions.SetGuardians
use enclavekit_anchor.Program.Instructions.SetGuardians.Replaced.{set_guardians-IsReplaced}
use enclavekit_anchor.Program.Entry.{emitted, transfer_sol, sweep_vault, set_guardians}

-- The events of an instruction that wrote `w`: one event if the wallet was in use, and otherwise
-- first the creation of the wallet, whose id is the hash of the key that it is announced with.
pub data IsAnnounced (p : Platform) (created : Bool) (wallet_id : Bytes) (w : SmartWallet)
    (event : Event) (events : List Event) : Type 0 where
  in_use : created ≡ false → events ≡ event ∷ [] → IsAnnounced p created wallet_id w event events
  creation :
      created ≡ true
      → p.sha256 w.active_key ≡ wallet_id
      → events ≡ wallet_created (record { wallet_id = wallet_id; key = w.active_key }) ∷ event ∷ []
      → IsAnnounced p created wallet_id w event events

module _ (p : Platform) (sys : Sysvars) where
  -- The key of a wallet that its first action made hashes to the id.
  created_key :
      (wallet : SmartWallet) (auth : Authorization) (action : Action) (sb vb : ℕ) (signer : Bytes)
      (w : SmartWallet)
      → is_new wallet ≡ true
      → verify_enclave_authorization p sys wallet auth action sb vb ≡ ok (signer, w)
      → p.sha256 w.active_key ≡ auth.wallet_id
  unfolding first_wallet
  created_key wallet auth action sb vb signer w new h =
      let (hashed, _, written) = verify_first_use p sys wallet auth action sb vb new h in
      ap (λ (x : SmartWallet). p.sha256 x.active_key) written ∙ hashed

  announced :
      (created : Bool) (wallet_id : Bytes) (w : SmartWallet) (event : Event)
      → (created ≡ true → p.sha256 w.active_key ≡ wallet_id)
      → IsAnnounced p created wallet_id w event (emitted created wallet_id w event)
  announced false wallet_id w event hashed = in_use refl refl
  announced true wallet_id w event hashed = creation refl (hashed refl) refl

  -- A `transfer_sol` that succeeds emits the transfer's event, for the lamports and the destination
  -- of the request, and before it, if the wallet was just made, the creation of the wallet under the
  -- id that was signed.
  pub transfer_sol-IsAnnounced :
      (accounts : TransferSol) (bumps : Bumps) (wallet_id : Bytes) (nonce : ℕ) (expires_at : ℤ)
      (max_relayer_fee lamports relayer_fee : ℕ) (bank : Bank) (o : Outcome (List Event))
      → transfer_sol p sys accounts bumps wallet_id nonce expires_at max_relayer_fee lamports
          relayer_fee bank
        ≡ ok o
      → (e : SolTransferred) × (e.to ≡ accounts.to)
        × (e.lamports ≡ lamports)
        × IsAnnounced p (is_new accounts.wallet) wallet_id o.wallet (sol_transferred e) o.event
  unfolding transfer_sol
  transfer_sol-IsAnnounced accounts bumps wallet_id nonce expires_at max_relayer_fee lamports
        relayer_fee bank o h =
      bind_ok (transfer _ _ _ _ _ _ _ _) _ h λ r done h1.
        let auth : Authorization = record {
          wallet_id = wallet_id;
          nonce = nonce;
          expires_at = expires_at;
          max_relayer_fee = max_relayer_fee;
        } in
        let t = transfer-IsTransferred p sys accounts auth lamports relayer_fee bumps bank r done in
        (
          r.event,
          ap (λ (x : SolTransferred). x.to) t.told,
          ap (λ (x : SolTransferred). x.lamports) t.told,
          subst
              (λ (x : Outcome (List Event)).
                IsAnnounced p (is_new accounts.wallet) wallet_id x.wallet (sol_transferred r.event)
                  x.event)
              (ok_injective _ o h1)
              (announced (is_new accounts.wallet) wallet_id r.wallet (sol_transferred r.event)
                (λ new. created_key accounts.wallet auth _ _ _ t.signer r.wallet new t.verified)),
        )

  -- A `sweep_vault` that succeeds emits the sweep's event, for the destination of the request, and
  -- before it, if the wallet was just made, the creation of the wallet under the id that was signed.
  pub sweep_vault-IsAnnounced :
      (accounts : SweepVault) (bumps : Bumps) (wallet_id : Bytes) (nonce : ℕ) (expires_at : ℤ)
      (max_relayer_fee relayer_fee : ℕ) (bank : Bank) (o : Outcome (List Event))
      → sweep_vault p sys accounts bumps wallet_id nonce expires_at max_relayer_fee relayer_fee bank
        ≡ ok o
      → (e : VaultSwept) × (e.to ≡ accounts.to)
        × IsAnnounced p (is_new accounts.wallet) wallet_id o.wallet (vault_swept e) o.event
  unfolding sweep_vault
  sweep_vault-IsAnnounced accounts bumps wallet_id nonce expires_at max_relayer_fee relayer_fee bank
        o h =
      bind_ok (sweep _ _ _ _ _ _ _) _ h λ r done h1.
        let auth : Authorization = record {
          wallet_id = wallet_id;
          nonce = nonce;
          expires_at = expires_at;
          max_relayer_fee = max_relayer_fee;
        } in
        let t = sweep-IsSwept p sys accounts auth relayer_fee bumps bank r done in
        (
          r.event,
          ap (λ (x : VaultSwept). x.to) t.told,
          subst
              (λ (x : Outcome (List Event)).
                IsAnnounced p (is_new accounts.wallet) wallet_id x.wallet (vault_swept r.event)
                  x.event)
              (ok_injective _ o h1)
              (announced (is_new accounts.wallet) wallet_id r.wallet (vault_swept r.event)
                (λ new. created_key accounts.wallet auth _ _ _ t.signer r.wallet new t.verified)),
        )

  -- A `set_guardians` that succeeds emits the guardians of the request, and before them, if the
  -- wallet was just made, the creation of the wallet under the id that was signed.
  pub set_guardians-IsAnnounced :
      (accounts : SetGuardians) (bumps : Bumps) (wallet_id : Bytes) (nonce : ℕ) (expires_at : ℤ)
      (max_relayer_fee : ℕ) (guardians : List Guardian) (relayer_fee : ℕ) (bank : Bank)
      (o : Outcome (List Event))
      → set_guardians p sys accounts bumps wallet_id nonce expires_at max_relayer_fee guardians
          relayer_fee bank
        ≡ ok o
      → (e : GuardiansSet) × (e.guardians ≡ guardians)
        × IsAnnounced p (is_new accounts.wallet) wallet_id o.wallet (guardians_set e) o.event
  unfolding set_guardians
  set_guardians-IsAnnounced accounts bumps wallet_id nonce expires_at max_relayer_fee guardians
        relayer_fee bank o h =
      bind_ok (SetGuardians.set_guardians _ _ _ _ _ _ _ _) _ h λ r done h1.
        let auth : Authorization = record {
          wallet_id = wallet_id;
          nonce = nonce;
          expires_at = expires_at;
          max_relayer_fee = max_relayer_fee;
        } in
        let t =
          set_guardians-IsReplaced p sys accounts auth guardians relayer_fee bumps bank r done in
        let key = ap (λ (x : SmartWallet). p.sha256 x.active_key) t.written in
        (
          r.event,
          ap (λ (x : GuardiansSet). x.guardians) t.told,
          subst
              (λ (x : Outcome (List Event)).
                IsAnnounced p (is_new accounts.wallet) wallet_id x.wallet (guardians_set r.event)
                  x.event)
              (ok_injective _ o h1)
              (announced (is_new accounts.wallet) wallet_id r.wallet (guardians_set r.event) (λ new.
                key ∙ created_key accounts.wallet auth _ _ _ t.signer t.before new t.verified)),
        )
