-- ===== src/Program/Instructions/SetGuardians/Replaced.antt =====
-- What a successful `set_guardians` has checked and written.
use enclavekit_anchor.Common.{ℕ, ◌≤◌, min, List, map, Bytes, false, not, not-true, ◌≡◌, refl, subst}
use enclavekit_anchor.Encoding.Action
use enclavekit_anchor.Program.Errors.{ok, bind_ok, require_ok, ok_injective}
use enclavekit_anchor.Program.State.{
  SmartWallet, Guardian, guardian_slot_from, action_guardian_from, empty_rotation_slot,
}
use enclavekit_anchor.Program.Events.{GuardiansSet}
use enclavekit_anchor.Program.Platform.{Sysvars, Platform, Bank, move}
use enclavekit_anchor.Program.Authorization.{
  Authorization, verify_enclave_authorization, refund_relayer,
}
use enclavekit_anchor.Program.Authorization.Verified.{require_active_key_ok}
use enclavekit_anchor.Program.Authorization.Payments.{refund_relayer_moves}
use enclavekit_anchor.Program.Instructions.Outcome.{Outcome, Bumps}
use enclavekit_anchor.Program.Instructions.SetGuardians.{SetGuardians, any_web_authn, set_guardians}

module _ (p : Platform) (sys : Sysvars) (self : SetGuardians) (auth : Authorization)
    (guardians : List Guardian) (relayer_fee : ℕ) (bumps : Bumps) (bank : Bank) where
  pub record IsReplaced (o : Outcome GuardiansSet) : Type 0 where
    pub signer : Bytes
    pub before : SmartWallet
    pub verified :
        verify_enclave_authorization p sys self.wallet auth
          (Action.set_guardians (map action_guardian_from guardians))
          bumps.wallet
          bumps.vault
        ≡ ok (signer, before)
    pub by_active_key : signer ≡ before.active_key
    pub no_web_authn : any_web_authn guardians ≡ false
    pub written : o.wallet ≡ record before {
      guardians = map guardian_slot_from guardians;
      rotation = empty_rotation_slot;
    }
    pub covered : min relayer_fee auth.max_relayer_fee ≤ bank self.vault
    pub paid : o.bank ≡ move self.vault self.relayer (min relayer_fee auth.max_relayer_fee) bank
    pub told : o.event ≡ record { wallet_id = before.wallet_id; guardians = guardians }

  pub set_guardians-IsReplaced :
      (o : Outcome GuardiansSet)
      → set_guardians p sys self auth guardians relayer_fee bumps bank ≡ ok o
      → IsReplaced o
  unfolding set_guardians
  set_guardians-IsReplaced o h =
      bind_ok (verify_enclave_authorization _ _ _ _ _ _ _) _ h λ sw verified h1.
        require_active_key_ok sw.1 sw.0 _ h1 λ active h2.
          require_ok (not (any_web_authn guardians)) _ _ h2 λ supported h3.
            bind_ok (refund_relayer _ _ _ _ _ _ _) _ h3 λ pb refunded h4.
              let wallet = record sw.1 {
                guardians = map guardian_slot_from guardians;
                rotation = empty_rotation_slot;
              } in
              let (amount, has, moved) =
                refund_relayer_moves p wallet self.vault self.relayer relayer_fee
                  auth.max_relayer_fee bank pb.1 pb.0 refunded in
              subst IsReplaced (ok_injective _ o h4) (record {
                signer = sw.0;
                before = sw.1;
                verified = verified;
                by_active_key = active;
                no_web_authn = not-true (any_web_authn guardians) supported;
                written = refl;
                covered = has;
                paid = moved;
                told = refl;
              })
