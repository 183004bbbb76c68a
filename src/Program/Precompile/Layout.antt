-- ===== src/Program/Precompile/Layout.antt =====
-- `load_secp256r1_payload` accepts exactly the documented layout of the precompile's data.
use enclavekit_anchor.Common.{
  ℕ, ◌+◌, ◌-◌, ◌*◌, ◌/◌, ◌%◌, ◌<◌, ◌≤◌, Bytes, true, List, [], ◌∷◌, ◌++◌, ◌≡◌, ◌↔◌, refl, length,
  get_or, take, drop, All, IsByte, bytes_eq_refl, bytes_eq→eq, length-append, drop-drop,
  length-drop, length-take, take-append-drop, take_prefix, drop_prefix, drop_past, arith, leb,
  le→leb, leb→le, ◌==◌, ==_iff, sym, ap, ◌∙◌,
}
use enclavekit_anchor.Program.Constants.{secp256r1_program_id}
use enclavekit_anchor.Program.Errors.{Result, err, ok, require-eq-ok}
use enclavekit_anchor.Program.Platform.{Instruction}
use enclavekit_anchor.Program.Precompile.{
  SignedPayload, load_secp256r1_payload, parse_offsets, matches_layout, slice, is_empty, u16_field,
}

-- The instruction data that the `solana-secp256r1-program` crate documents for one signature.
abbrev pub precompile_data : ℕ → Bytes → Bytes → Bytes → Bytes
precompile_data padding pubkey signature message =
    1
    ∷ padding
    ∷ 49
    ∷ 0
    ∷ 255
    ∷ 255
    ∷ 16
    ∷ 0
    ∷ 255
    ∷ 255
    ∷ 113
    ∷ 0
    ∷ (length message % 256)
    ∷ (length message / 256)
    ∷ 255
    ∷ 255
    ∷ (pubkey ++ (signature ++ message))

-- Data in the documented layout, from the precompile, with no account, is read back: the key and
-- the message, for a message shorter than 65536 bytes.
pub load_secp256r1_payload_accepts :
    (padding : ℕ) (pubkey signature message : Bytes)
    → length pubkey ≡ 33
    → length signature ≡ 64
    → length message < 65536
    → load_secp256r1_payload (
        ok (record {
          program_id = secp256r1_program_id;
          accounts = [];
          data_bytes = precompile_data padding pubkey signature message;
        }))
      ≡ ok (record { pubkey = pubkey; message = message })
unfolding load_secp256r1_payload
load_secp256r1_payload_accepts padding pubkey signature message hk hs hm =
    let tail : length (pubkey ++ (signature ++ message)) ≡ 97 + length message =
      omega (arith, length-append pubkey (signature ++ message), length-append signature message) in
    let xs : Bytes = precompile_data padding pubkey signature message in
    let long : leb 113 (length xs) ≡ true = le→leb 113 (length xs) (omega (arith, tail)) in
    let size : (113 + u16_field xs 5 == length xs) ≡ true =
      (==_iff (113 + u16_field xs 5) (length xs)).1 (omega (arith, tail)) in
    let key : slice 16 49 xs ≡ pubkey = take_prefix 33 pubkey (signature ++ message) hk in
    let rest : drop 113 xs ≡ message =
      drop_past 33 64 pubkey (signature ++ message) hk ∙ drop_prefix 64 signature message hs in
    rw (bytes_eq_refl secp256r1_program_id) (rw long (rw size (rw (key, rest) refl)))

-- The tests of `load_secp256r1_payload` on the data, as they read it.
abbrev IsLaidOut : Bytes → SignedPayload → Type 0
IsLaidOut xs payload =
    (113 ≤ length xs)
    × (get_or xs 0 0 ≡ 1)
    × (matches_layout (parse_offsets xs) ≡ true)
    × (113 + u16_field xs 5 ≡ length xs)
    × (payload ≡ record { pubkey = slice 16 49 xs; message = drop 113 xs })

is_empty→eq {ℓ} : {A : Type ℓ} (xs : List A) → is_empty xs ≡ true → xs ≡ []
is_empty→eq [] h = refl
is_empty→eq (x ∷ xs) h = cc

load_secp256r1_payload_inverts :
    (ix : Instruction) (payload : SignedPayload)
    → load_secp256r1_payload (ok ix) ≡ ok payload
    → (ix.program_id ≡ secp256r1_program_id) × (ix.accounts ≡ []) × IsLaidOut ix.data_bytes payload
unfolding load_secp256r1_payload
load_secp256r1_payload_inverts ix payload h =
    let (program, h1) = require-eq-ok _ _ _ h in
    let (accounts, h2) = require-eq-ok _ _ _ h1 in
    let (long, h3) = require-eq-ok _ _ _ h2 in
    let (one, h4) = require-eq-ok _ _ _ h3 in
    let (layout, h5) = require-eq-ok _ _ _ h4 in
    let (size, h6) = require-eq-ok _ _ _ h5 in
    (
      bytes_eq→eq ix.program_id secp256r1_program_id program,
      is_empty→eq ix.accounts accounts,
      (leb→le _ _ long, (==_iff _ _).0 one, layout, (==_iff _ _).0 size, cc),
    )

-- The key that is read is 33 bytes.
pub length-load_secp256r1_payload :
    (previous : Result Instruction) (payload : SignedPayload)
    → load_secp256r1_payload previous ≡ ok payload
    → length payload.pubkey ≡ 33
unfolding load_secp256r1_payload
length-load_secp256r1_payload (err e) payload h = cc
length-load_secp256r1_payload (ok ix) payload h =
    let (_, _, (long, _, _, _, same)) = load_secp256r1_payload_inverts ix payload h in
    ap (λ (t : SignedPayload). length t.pubkey) same
    ∙ omega (arith, length-take 33 (drop 16 ix.data_bytes), length-drop 16 ix.data_bytes)

-- Two bytes are the low and the high part of the number that they make.
u16_parts :
    (lo hi n : ℕ) → IsByte lo → IsByte hi → lo + 256 * hi ≡ n → (lo ≡ n % 256) × (hi ≡ n / 256)
u16_parts lo hi n hl hh e = omega arith

-- What the layout test says of the fields.
matches_layout_fields :
    (xs : Bytes)
    → matches_layout (parse_offsets xs) ≡ true
    → (u16_field xs 0 ≡ 49)
      × (u16_field xs 1 ≡ 65535)
      × (u16_field xs 2 ≡ 16)
      × (u16_field xs 3 ≡ 65535)
      × (u16_field xs 4 ≡ 113)
      × (u16_field xs 6 ≡ 65535)
unfolding matches_layout parse_offsets
matches_layout_fields xs h = ground arith

-- A list of 97 or more is its first 33, the next 64 and the rest.
cut_33_64 : (xs : Bytes) → xs ≡ take 33 xs ++ (take 64 (drop 33 xs) ++ drop 97 xs)
cut_33_64 xs =
    rw (← drop-drop 64 33 xs) (rw (take-append-drop 64 (drop 33 xs)) (sym (take-append-drop 33 xs)))

-- The data is the documented layout of some padding byte, signature, and the returned payload.
abbrev pub IsPrecompileData : Bytes → SignedPayload → Type 0
IsPrecompileData xs payload =
    (padding : ℕ) × (signature : Bytes) × (length payload.pubkey ≡ 33)
    × (length signature ≡ 64)
    × (length payload.message < 65536)
    × (xs ≡ precompile_data padding payload.pubkey signature payload.message)

laid_out_data :
    (xs : Bytes) (payload : SignedPayload)
    → All IsByte xs
    → IsLaidOut xs payload
    → IsPrecompileData xs payload
laid_out_data
      (c ∷ padding ∷ b0 ∷ b1 ∷ b2 ∷ b3 ∷ b4 ∷ b5 ∷ b6 ∷ b7 ∷ b8 ∷ b9 ∷ b10 ∷ b11 ∷ b12 ∷ b13 ∷ rest)
      payload bytes (long, one, layout, size, same) =
    let fields = matches_layout_fields _ layout in
    let body : length (drop 97 rest) ≡ length rest - 97 = length-drop 97 rest in
    let e0 : b0 ≡ 49 = omega arith in
    let e1 : b1 ≡ 0 = omega arith in
    let e2 : b2 ≡ 255 = omega arith in
    let e3 : b3 ≡ 255 = omega arith in
    let e4 : b4 ≡ 16 = omega arith in
    let e5 : b5 ≡ 0 = omega arith in
    let e6 : b6 ≡ 255 = omega arith in
    let e7 : b7 ≡ 255 = omega arith in
    let e8 : b8 ≡ 113 = omega arith in
    let e9 : b9 ≡ 0 = omega arith in
    let e12 : b12 ≡ 255 = omega arith in
    let e13 : b13 ≡ 255 = omega arith in
    let e10 : b10 ≡ length (drop 97 rest) % 256 = omega arith in
    let e11 : b11 ≡ length (drop 97 rest) / 256 = omega arith in
    rw same (
      padding,
      take 64 (drop 33 rest),
      omega (arith, length-take 33 rest),
      omega (arith, length-take 64 (drop 33 rest), length-drop 33 rest),
      omega arith,
      cc (cut_33_64 rest),
    )
laid_out_data xs payload bytes laid = absurd (omega arith)

IsPrecompileData-loads :
    (ix : Instruction) (payload : SignedPayload)
    → ix.program_id ≡ secp256r1_program_id
    → ix.accounts ≡ []
    → IsPrecompileData ix.data_bytes payload
    → load_secp256r1_payload (ok ix) ≡ ok payload
IsPrecompileData-loads ix payload program accounts (padding, signature, hk, hs, hm, e) =
    ap (λ (x : Instruction). load_secp256r1_payload (ok x)) (cc (program, accounts, e))
    ∙ load_secp256r1_payload_accepts padding payload.pubkey signature payload.message hk hs hm

-- An instruction made of bytes is accepted, and gives this payload, exactly when it is the precompile's,
-- has no account, and its data is the documented layout of the payload: any padding byte, any signature
-- of 64 bytes, a key of 33 and any message shorter than 65536.
pub load_secp256r1_payload_exact :
    (ix : Instruction) (payload : SignedPayload)
    → All IsByte ix.data_bytes
    → (load_secp256r1_payload (ok ix) ≡ ok payload) ↔ (
        (ix.program_id ≡ secp256r1_program_id)
        × (ix.accounts ≡ [])
        × IsPrecompileData ix.data_bytes payload)
load_secp256r1_payload_exact ix payload bytes = (
  λ h.
      let (program, accounts, laid) = load_secp256r1_payload_inverts ix payload h in
      (program, accounts, laid_out_data ix.data_bytes payload bytes laid),
  λ (program, accounts, laid). IsPrecompileData-loads ix payload program accounts laid,
)
