-- ===== src/Vectors/Inputs.antt =====
-- The fixed inputs of the vectors.
use enclavekit_anchor.Common.{ℕ, ℤ, pos, Bytes, [], ◌∷◌, replicate}
use enclavekit_anchor.Vectors.Text.{Text, codes}

abbrev pub private_key : Bytes
private_key =
    1 ∷ 2 ∷ 3 ∷ 4 ∷ 5 ∷ 6 ∷ 7 ∷ 8 ∷ 9 ∷ 10 ∷ 11 ∷ 12 ∷ 13 ∷ 14 ∷ 15 ∷ 16 ∷ 17 ∷ 18 ∷ 19 ∷ 20 ∷ 21
    ∷ 22 ∷ 23 ∷ 24 ∷ 25 ∷ 26 ∷ 27 ∷ 28 ∷ 29 ∷ 30 ∷ 31 ∷ 32 ∷ []

abbrev pub nonce : ℕ
nonce = 7

abbrev pub expires_at : ℤ
expires_at = pos 1700000000

abbrev pub max_relayer_fee : ℕ
max_relayer_fee = 10000

abbrev pub to : Bytes
to = replicate 32 0x11

abbrev pub lamports : ℕ
lamports = 10000000

abbrev pub new_key_seed : Bytes
new_key_seed = replicate 32 0x44

abbrev pub guardian_seed : Bytes
guardian_seed = replicate 32 0x55

abbrev pub event_authority_seed : Bytes
event_authority_seed = codes "__event_authority"

abbrev pub relayer : Bytes
relayer = replicate 32 0x77

abbrev pub blockhash : Bytes
blockhash = replicate 32 0x88

abbrev pub relayer_fee : ℕ
relayer_fee = max_relayer_fee

abbrev pub passkey_seed : Bytes
passkey_seed = replicate 32 0x66

abbrev pub rp_id : Text
rp_id = codes "example.com"

abbrev pub proposed_at : ℤ
proposed_at = pos 1699000000
