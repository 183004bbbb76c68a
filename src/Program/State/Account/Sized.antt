-- ===== src/Program/State/Account/Sized.antt =====
-- The empty guardian slot has the declared sizes.
use enclavekit_anchor.Common.{refl}
use enclavekit_anchor.Program.State.{empty_guardian_slot}
use enclavekit_anchor.Program.State.Account.{IsSlotSized}

pub empty_slot : IsSlotSized empty_guardian_slot
empty_slot = record { key_len = refl; rp_id_hash_len = refl }
