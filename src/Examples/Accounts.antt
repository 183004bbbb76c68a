-- ===== src/Examples/Accounts.antt =====
-- The theorems on the account's bytes and its specification, applied to the history of History.antt.
use enclavekit_anchor.Common.{
  ℕ, ◌<◌, pos, true, false, [], ◌∷◌, length, take, drop, from_le_bytes, i64_bits, ◌≡◌, ◌↔◌, refl,
  arith,
}
use mathlib.Core.Option.{some}
use enclavekit_anchor.Encoding.Layout.{
  wallet_id_offset, active_key_offset, nonce_offset, attested_offset, rotation_offset,
  rotation_new_key_offset, rotation_proposed_at_offset, rotation_proposed_by_offset,
  state_bump_offset, vault_bump_offset, state_len, guardian_kind_offset,
}
use enclavekit_anchor.Program.State.{p256_guardian}
use enclavekit_anchor.Program.State.Account.{bool_byte, IsSized}
use enclavekit_anchor.Program.State.Account.Fields.{state_fields}
use enclavekit_anchor.Program.State.Account.Filters.{guardian_filter}
use enclavekit_anchor.Program.Lifecycle.Steps.{Keeps, proposed}
use enclavekit_anchor.Program.Lifecycle.Invariant.{Reaches-IsSound}
use enclavekit_anchor.Program.Lifecycle.Spec.Refined.{IsStep, kept, HasActed-IsStep}
use enclavekit_anchor.Examples.Chain.{chain, id, guardian_key, next_key, auth_of, funded}
use enclavekit_anchor.Examples.Authorizations.{at_proposal, guarded_at}
use enclavekit_anchor.Examples.History.{
  awaiting, guarded_reached, proposing, made_outcome, proposing_succeeds,
}
use enclavekit_anchor.Examples.Generator.{codec}

guarded-IsSized : IsSized (guarded_at 1)
guarded-IsSized = record {
  wallet_id_len = refl;
  active_key_len = refl;
  nonce_u64 = omega arith;
  guardians_len = refl;
  slots_sized = (
    record { key_len = refl; rp_id_hash_len = refl },
    (
      record { key_len = refl; rp_id_hash_len = refl },
      (record { key_len = refl; rp_id_hash_len = refl }, tt),
    ),
  );
  new_key_len = refl;
  proposed_at_i64 = omega arith;
}

awaiting-IsSized : IsSized awaiting
awaiting-IsSized = record {
  wallet_id_len = refl;
  active_key_len = refl;
  nonce_u64 = omega arith;
  guardians_len = refl;
  slots_sized = guarded-IsSized.slots_sized;
  new_key_len = refl;
  proposed_at_i64 = omega arith;
}

state_fields_example :
    (length (codec.try_serialize awaiting) ≡ state_len)
    × (take 32 (drop wallet_id_offset (codec.try_serialize awaiting)) ≡ id)
    × (take 33 (drop active_key_offset (codec.try_serialize awaiting)) ≡ awaiting.active_key)
    × (from_le_bytes (take 8 (drop nonce_offset (codec.try_serialize awaiting))) ≡ 2)
    × (take 1 (drop attested_offset (codec.try_serialize awaiting)) ≡ bool_byte false ∷ [])
    × (take 1 (drop rotation_offset (codec.try_serialize awaiting)) ≡ bool_byte true ∷ [])
    × (take 33 (drop rotation_new_key_offset (codec.try_serialize awaiting)) ≡ next_key)
    × (from_le_bytes (take 8 (drop rotation_proposed_at_offset (codec.try_serialize awaiting)))
        ≡ i64_bits (pos 2000))
    × (take 1 (drop rotation_proposed_by_offset (codec.try_serialize awaiting)) ≡ 0 ∷ [])
    × (take 1 (drop state_bump_offset (codec.try_serialize awaiting)) ≡ 254 ∷ [])
    × (take 1 (drop vault_bump_offset (codec.try_serialize awaiting)) ≡ 253 ∷ [])
state_fields_example = state_fields codec awaiting awaiting-IsSized

guardian_steps : Keeps chain id at_proposal (some (guarded_at 1)) awaiting
guardian_steps =
    proposed proposing (auth_of 1) next_key 300 funded made_outcome refl refl proposing_succeeds
      refl

HasActed-IsStep_example :
    IsStep chain id at_proposal (pos 2000) refl (some (guarded_at 1)) (some awaiting)
HasActed-IsStep_example =
    HasActed-IsStep chain id at_proposal (pos 2000) refl (some (guarded_at 1)) (some awaiting)
      (Reaches-IsSound chain id guarded_reached) (kept awaiting guardian_steps refl)

guardian_filter_example :
    ((i : ℕ) × (i < 3)
      × (take 34 (drop (guardian_kind_offset i) (codec.try_serialize (guarded_at 1)))
          ≡ 1 ∷ guardian_key))
    ↔ ((j : ℕ) × (p256_guardian (guarded_at 1) guardian_key ≡ some j))
guardian_filter_example = guardian_filter codec (guarded_at 1) guarded-IsSized guardian_key
