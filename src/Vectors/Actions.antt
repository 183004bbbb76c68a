-- ===== src/Vectors/Actions.antt =====
-- actions.json and high_s.json: every implemented action, signed under one header.
pub mod Signed
pub mod Accepted
use enclavekit_anchor.Common.{ℕ, ℤ, Bytes, List, [], ◌∷◌}
use mathlib.Core.Option
use mathlib.Core.Option.{Option}
use enclavekit_anchor.Encoding.Action
use enclavekit_anchor.Encoding.Action.{Action}
use enclavekit_anchor.Encoding.Preimage.{Preimage, to_bytes}
use enclavekit_anchor.Program.Constants.{program_id}
use enclavekit_anchor.Vectors.Text.{
  Text, codes, Hex, hex, Value, Items, Members, text, number, array, object, end_items, item,
  end_members, member, ◌>>=◌, map_each,
}
use enclavekit_anchor.Vectors.Inputs
use enclavekit_anchor.Vectors.Tools.{Tools}
use enclavekit_anchor.Vectors.Key.{
  EnclaveKey, from_seed, compressed_pubkey, wallet_id, sign, sign_high_s,
}

pub record InstructionVector : Type 0 where
  pub program_id : Text
  pub data_bytes : Hex

pub record ActionVector : Type 0 where
  pub name : Text
  pub fields : Value
  pub borsh : Hex
  pub preimage : Hex
  pub signature : Hex
  pub secp256r1_instruction : InstructionVector

pub record ActionsVector : Type 0 where
  pub nonce : ℕ
  pub expires_at : ℤ
  pub max_relayer_fee : ℕ
  pub actions : List ActionVector

pub record HighSVector : Type 0 where
  pub message : Hex
  pub high_s : Hex
  pub low_s : Hex

unfoldable pub guardian : Action.Guardian → Value
guardian Action.Guardian.none = text (codes "None")
guardian (Action.Guardian.p256 key) = object (member (codes "P256") (text (hex key)) end_members)
guardian (Action.Guardian.web_authn key) =
    object (member (codes "WebAuthn") (text (hex key)) end_members)

unfoldable pub guardian_items : List Action.Guardian → Items
unfolding guardian
guardian_items [] = end_items
guardian_items (g ∷ gs) = item (guardian g) (guardian_items gs)

-- A transfer of tokens is `todo!`.
unfoldable pub fields : Action → Option Value
unfolding guardian_items
fields (Action.transfer_sol to lamports) = Option.some (
    object (
      member (codes "to") (text (hex to))
        (member (codes "lamports") (number lamports) end_members)))
fields (Action.transfer_token mint to amount) = Option.none
fields (Action.propose_rotation new_key) =
    Option.some (object (member (codes "new_key") (text (hex new_key)) end_members))
fields Action.cancel_rotation = Option.some (object end_members)
fields (Action.set_guardians guardians) =
    Option.some (object (member (codes "guardians") (array (guardian_items guardians)) end_members))
fields (Action.sweep_vault to) =
    Option.some (object (member (codes "to") (text (hex to)) end_members))
fields (Action.close_wallet to) =
    Option.some (object (member (codes "to") (text (hex to)) end_members))

module _ (t : Tools) where
  -- The cases, in variant index order.
  unfoldable pub cases : Option (List (Text × Action))
  unfolding from_seed compressed_pubkey
  cases = do
    new_key ← from_seed t Inputs.new_key_seed
    guardian_key ← from_seed t Inputs.guardian_seed
    Option.some (
        (codes "transfer_sol", Action.transfer_sol Inputs.to Inputs.lamports)
        ∷ (codes "propose_rotation", Action.propose_rotation (compressed_pubkey t new_key))
        ∷ (codes "cancel_rotation", Action.cancel_rotation)
        ∷ (
          codes "set_guardians",
          Action.set_guardians (
              Action.Guardian.p256 (compressed_pubkey t guardian_key)
              ∷ Action.Guardian.none
              ∷ Action.Guardian.none
              ∷ []),
        )
        ∷ (codes "sweep_vault", Action.sweep_vault Inputs.to)
        ∷ (codes "close_wallet", Action.close_wallet Inputs.to)
        ∷ [])

  -- The bytes that the key signs for an action, under the shared header.
  unfoldable pub signed_bytes : EnclaveKey t → Action → Bytes
  unfolding wallet_id
  signed_bytes key action = to_bytes t.borsh.serialize (record {
    program_id = program_id;
    wallet_id = wallet_id t key;
    nonce = Inputs.nonce;
    expires_at = Inputs.expires_at;
    max_relayer_fee = Inputs.max_relayer_fee;
    action = action;
  })

  -- The closure that `actions_vector` maps over the cases.
  unfoldable pub action_vector : EnclaveKey t → Text × Action → Option ActionVector
  unfolding signed_bytes sign compressed_pubkey
  action_vector key (name, action) = do
    let preimage = signed_bytes key action
    let signature = sign t key preimage
    let instruction =
        t.new_secp256r1_instruction_with_signature preimage signature (compressed_pubkey t key)
    shown ← fields action
    Option.some (record {
      name = name;
      fields = shown;
      borsh = record { bytes = t.borsh.serialize action };
      preimage = record { bytes = preimage };
      signature = record { bytes = signature };
      secp256r1_instruction = record {
        program_id = t.to_base58 instruction.program_id;
        data_bytes = record { bytes = instruction.data_bytes };
      };
    })

  unfoldable pub actions_vector : EnclaveKey t → Option ActionsVector
  unfolding cases action_vector
  actions_vector key = do
    named ← cases
    actions ← map_each (action_vector key) named
    Option.some (record {
      nonce = Inputs.nonce;
      expires_at = Inputs.expires_at;
      max_relayer_fee = Inputs.max_relayer_fee;
      actions = actions;
    })

  unfoldable pub high_s_vector : EnclaveKey t → Option HighSVector
  unfolding sign sign_high_s
  high_s_vector key = do
    let message = codes "enclavekit high-S vector"
    high ← sign_high_s t key message
    Option.some (record {
      message = record { bytes = message };
      high_s = record { bytes = high };
      low_s = record { bytes = sign t key message };
    })
