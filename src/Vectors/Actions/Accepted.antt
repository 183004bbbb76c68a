-- ===== src/Vectors/Actions/Accepted.antt =====
-- The actions of actions.json, as the program verifies them.
use enclavekit_anchor.Common.{
  ℕ, ◌+◌, ℤ, ◌<ℤ◌, false, List, [], ◌∷◌, length, All, IsArray, ◌≡◌, refl, arith,
}
use mathlib.Core.Option.{some}
use enclavekit_anchor.Encoding.Action
use enclavekit_anchor.Encoding.Action.{Action, IsAction}
use enclavekit_anchor.Program.Constants.{secp256r1_program_id}
use enclavekit_anchor.Program.Errors.{ok}
use enclavekit_anchor.Program.State.{SmartWallet, is_new}
use enclavekit_anchor.Program.Platform.{Platform}
use enclavekit_anchor.Program.Authorization.{verify_enclave_authorization}
use enclavekit_anchor.Vectors.Text.{Text, codes, Value, map_each}
use enclavekit_anchor.Vectors.Inputs
use enclavekit_anchor.Vectors.Tools.{Tools}
use enclavekit_anchor.Vectors.Key.{EnclaveKey, from_seed, compressed_pubkey, sign}
use enclavekit_anchor.Vectors.Actions.{
  ActionVector, ActionsVector, fields, cases, signed_bytes, action_vector, actions_vector,
}
use enclavekit_anchor.Vectors.Actions.Signed.{header, sysvars_after, signed_instruction, verified}

module _ (t : Tools) (p : Platform) (key : EnclaveKey t) (w : SmartWallet) (now : ℤ)
    (rent sb vb : ℕ) where
  -- A vector of an action: its encoding, the precompile's address, and the program's verdict.
  pub record IsAccepted (a : ActionVector) : Type 0 where
    pub action : Action
    pub encoded : a.borsh.bytes ≡ t.borsh.serialize action
    pub to_precompile : a.secp256r1_instruction.program_id ≡ t.to_base58 secp256r1_program_id
    pub accepted :
        verify_enclave_authorization p
          (sysvars_after a.secp256r1_instruction.data_bytes.bytes now rent)
          w
          (header t key)
          action
          sb
          vb
        ≡ ok (compressed_pubkey t key, record w { nonce = Inputs.nonce + 1 })

  module _ (same_borsh : p.borsh ≡ t.borsh) (used : is_new w ≡ false)
      (at_nonce : w.nonce ≡ Inputs.nonce) (in_time : now <ℤ Inputs.expires_at) where
    abbrev IsCase : Text × Action → Type 0
    IsCase (name, action) = IsAction action × ((shown : Value) × (fields action ≡ some shown))

    action_vector-IsAccepted :
        (name : Text) (action : Action) (shown : Value)
        → IsAction action
        → fields action ≡ some shown
        → (a : ActionVector) × (action_vector t key (name, action) ≡ some a) × IsAccepted a
    unfolding action_vector sign
    action_vector-IsAccepted name action shown fits e =
        let preimage = signed_bytes t key action in
        let signature = sign t key preimage in
        let sized : length signature ≡ 64 = t.length-signature_bytes _ in
        let instruction =
          t.new_secp256r1_instruction_with_signature preimage signature (compressed_pubkey t key) in
        let built = signed_instruction t key action signature fits sized in
        (
          record {
            name = name;
            fields = shown;
            borsh = record { bytes = t.borsh.serialize action };
            preimage = record { bytes = preimage };
            signature = record { bytes = signature };
            secp256r1_instruction = record {
              program_id = t.to_base58 instruction.program_id;
              data_bytes = record { bytes = instruction.data_bytes };
            };
          },
          rw e refl,
          record {
            action = action;
            encoded = refl;
            to_precompile = rw built refl;
            accepted = rw built (
                verified t p key w now rent sb vb same_borsh used at_nonce in_time action signature
                  fits sized);
          },
        )

    map_each-IsAccepted :
        (named : List (Text × Action))
        → All IsCase named
        → (actions : List ActionVector) × (map_each (action_vector t key) named ≡ some actions)
          × (length actions ≡ length named)
          × All IsAccepted actions
    unfolding map_each
    map_each-IsAccepted [] h = ([], refl, refl, tt)
    map_each-IsAccepted ((name, action) ∷ named) ((fits, (shown, e)), h) =
        let (a, made, accepted) = action_vector-IsAccepted name action shown fits e in
        let (actions, rest, same, all) = map_each-IsAccepted named h in
        (a ∷ actions, rw made (rw rest refl), omega (arith, same), (accepted, all))

    -- When the seeds of the new key and of the guardian are valid keys, the generator lists six
    -- actions, and for each a precompile instruction that the program accepts right before its own:
    -- before the expiry, for any wallet in use whose nonce is the vectors', the verification under the
    -- shared header returns the test key and raises the nonce by 1.
    pub actions_vector-IsAccepted :
        (new_key guardian_key : EnclaveKey t)
        → from_seed t Inputs.new_key_seed ≡ some new_key
        → from_seed t Inputs.guardian_seed ≡ some guardian_key
        → (v : ActionsVector) × (actions_vector t key ≡ some v)
          × (length v.actions ≡ 6)
          × All IsAccepted v.actions
    unfolding actions_vector cases fields compressed_pubkey
    actions_vector-IsAccepted new_key guardian_key h1 h2 =
        let named : List (Text × Action) =
          (codes "transfer_sol", Action.transfer_sol Inputs.to Inputs.lamports)
          ∷ (codes "propose_rotation", Action.propose_rotation (compressed_pubkey t new_key))
          ∷ (codes "cancel_rotation", Action.cancel_rotation)
          ∷ (
            codes "set_guardians",
            Action.set_guardians (
                Action.Guardian.p256 (compressed_pubkey t guardian_key)
                ∷ Action.Guardian.none
                ∷ Action.Guardian.none
                ∷ []),
          )
          ∷ (codes "sweep_vault", Action.sweep_vault Inputs.to)
          ∷ (codes "close_wallet", Action.close_wallet Inputs.to)
          ∷ [] in
        let to_array : IsArray 32 Inputs.to = (refl, omega arith) in
        let (actions, made, six, all) = map_each-IsAccepted named (
          ((to_array, omega arith), (_, refl)),
          (
            (t.to_sec1_point_array new_key, (_, refl)),
            (
              (tt, (_, refl)),
              (
                ((refl, (t.to_sec1_point_array guardian_key, (tt, (tt, tt)))), (_, refl)),
                ((to_array, (_, refl)), ((to_array, (_, refl)), tt)),
              ),
            ),
          ),
        ) in
        (
          record {
            nonce = Inputs.nonce;
            expires_at = Inputs.expires_at;
            max_relayer_fee = Inputs.max_relayer_fee;
            actions = actions;
          },
          rw h1 (rw h2 (rw made refl)),
          six,
          all,
        )
