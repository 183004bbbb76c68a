-- ===== src/Program/Constants.antt =====
-- programs/enclavekit/src/constants.rs.
use enclavekit_anchor.Common.{ℕ, ◌+◌, ◌*◌, ℤ, pos, Bytes, ◌∷◌, []}
use enclavekit_anchor.Encoding.Constants.{compressed_pubkey_len}

abbrev pub p256_signature_len : ℕ
p256_signature_len = 64

abbrev pub precompile_offsets_start : ℕ
precompile_offsets_start = 2

abbrev pub precompile_offsets_len : ℕ
precompile_offsets_len = 14

abbrev pub precompile_data_start : ℕ
precompile_data_start = precompile_offsets_start + precompile_offsets_len

-- `u16::MAX`
abbrev pub precompile_current_instruction : ℕ
precompile_current_instruction = 65535

abbrev pub secp256r1_pubkey_offset : ℕ
secp256r1_pubkey_offset = precompile_data_start

abbrev pub secp256r1_signature_offset : ℕ
secp256r1_signature_offset = secp256r1_pubkey_offset + compressed_pubkey_len

abbrev pub secp256r1_message_offset : ℕ
secp256r1_message_offset = secp256r1_signature_offset + p256_signature_len

-- The default build, without the `devnet` feature.
abbrev pub rotation_delay : ℤ
rotation_delay = pos (72 * 60 * 60)

abbrev pub rotation_window : ℤ
rotation_window = pos (7 * 24 * 60 * 60)

-- `SECP256R1_PROGRAM_ID`, the bytes of Secp256r1SigVerify1111111111111111111111111
abbrev pub secp256r1_program_id : Bytes
secp256r1_program_id =
    6 ∷ 146 ∷ 13 ∷ 236 ∷ 47 ∷ 234 ∷ 113 ∷ 181 ∷ 183 ∷ 35 ∷ 129 ∷ 77 ∷ 116 ∷ 45 ∷ 169 ∷ 3 ∷ 28 ∷ 131
    ∷ 231 ∷ 95 ∷ 219 ∷ 121 ∷ 93 ∷ 86 ∷ 142 ∷ 117 ∷ 71 ∷ 128 ∷ 32 ∷ 0 ∷ 0 ∷ 0 ∷ []

-- `declare_id!` of lib.rs, the bytes of dG4h3aizVEW1bKjzkGsfk6zqcfa2MVn2DjavPniesSY
abbrev pub program_id : Bytes
program_id =
    9 ∷ 73 ∷ 241 ∷ 14 ∷ 88 ∷ 150 ∷ 67 ∷ 230 ∷ 230 ∷ 155 ∷ 1 ∷ 35 ∷ 116 ∷ 90 ∷ 81 ∷ 81 ∷ 191 ∷ 156
    ∷ 135 ∷ 197 ∷ 88 ∷ 34 ∷ 64 ∷ 178 ∷ 1 ∷ 192 ∷ 59 ∷ 91 ∷ 78 ∷ 212 ∷ 230 ∷ 73 ∷ []
