-- ===== src/Examples/Relayed.antt =====
-- The run through a relayer, on concrete inputs.
use enclavekit_anchor.Common.{replicate, ◌≡◌, refl}
use mathlib.Core.Option.{none, some}
use enclavekit_anchor.Vectors.Text.{codes}
use enclavekit_anchor.Kora.Seed.{seed_from_hex}
use enclavekit_anchor.Kora.Plan.{Plan, plan}

-- Pairs of a sign and a digit are read as bytes.
signs_read :
    seed_from_hex (codes "+1+1+1+1+1+1+1+1+1+1+1+1+1+1+1+1+1+1+1+1+1+1+1+1+1+1+1+1+1+1+1+1")
    ≡ some (replicate 32 1)
unfolding seed_from_hex
signs_read = refl

-- A wallet in use, with a vault of one million lamports.
abbrev planned : Plan
planned = record { nonce = 1; relayer_fee = 10000; needed = 15010000; funded = some 14010000 }

planning : plan (some 1) none 1000000 ≡ some planned
unfolding plan
planning = refl
