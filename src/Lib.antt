-- ===== src/Lib.antt =====
-- EnclaveKit: a Solana smart wallet that a Secure Enclave P-256 key controls.
--
-- The program. A user signs a preimage with the enclave's key. The runtime's secp256r1 precompile
-- checks the signature in one instruction, and the program's instruction after it reads the key and
-- the message back, compares the message with the preimage of its own arguments, and acts: it pays
-- from the wallet's vault, replaces the guardians, moves the wallet to another key, or closes it.
-- Guardians can propose another key, which anyone can confirm after a delay.
--
-- Common holds what the parts share: Boolean tests on numbers (Common/Tests), lists with native
-- lengths (Common/Lists), signed integers and their saturating sum (Common/Int), and byte strings
-- with little-endian integers (Common/ByteStrings).
--
-- Encoding models crates/enclavekit-encoding/src:
--   Encoding/Constants   constants.rs
--   Encoding/Action      action.rs: `Guardian`, `Action`
--   Encoding/Borsh       the derived serialiser of `Action`, a parameter
--   Encoding/Preimage    preimage.rs: `Preimage::to_bytes` is `to_bytes`
--   Encoding/Wallet      wallet.rs
--   Encoding/Layout      state.rs: the offsets of the state account
--
-- Program models programs/enclavekit/src:
--   Program/Errors         error.rs, and `Result`: an error is a value, `?` is `>>=`, `require!` is
--                          `require`
--   Program/Constants      constants.rs, and the id of lib.rs
--   Program/State          state.rs: `SmartWallet`, its slots and the rotation's times
--   Program/State/Account  the bytes of the state account, as crates/enclavekit-encoding/src/state.rs
--                          documents them
--   Program/Events         events.rs
--   Program/Platform       what the program calls: sysvars, SHA-256, the System program
--   Program/Precompile     precompile.rs: `load_secp256r1_payload`
--   Program/Authorization  authorization.rs: `verify_enclave_authorization`, `refund_relayer`
--   Program/Instructions   instructions/*.rs, one module for each file. A method takes the accounts
--                          it reads and the lamports of every address, and returns its event, the
--                          wallet and the lamports; an error returns nothing, since the runtime
--                          reverts the transaction
--   Program/Entry          lib.rs: the handlers and the events they emit
--   Program/Lifecycle      the sequences of instructions on one wallet's state account: `Keeps` is
--                          one instruction, `Lives` a life between closings, `Reaches` every state
--                          from the absent account, closings and new beginnings included. Lifecycle/Spec
--                          is the specification: an owner, a counter, the keys of guardians and the
--                          recovery that waits, without the account's representation;
--                          Lifecycle/Vault follows one vault's lamports over the instructions of all
--                          wallets
--
-- Vectors models crates/gen-vectors/src/main.rs:
--   Vectors/Text, Inputs   hexadecimal text and JSON values; the constants
--   Vectors/Client         an instruction as a client builds it: the structs that Anchor generates
--   Vectors/Tools          what the generator calls: P-256, SHA-256, borsh, Anchor, the Solana SDK
--   Vectors/Key            `EnclaveKey`, `key_vector`
--   Vectors/Actions        `cases`, `fields`, `actions_vector`, `high_s_vector`
--   Vectors/Instructions   `program_instruction`, `instructions_vector`
--   Vectors/Transaction    `transaction_vector`
--   Vectors/States         `state_vector`, `named_state`
--   Vectors/Files          `vectors`, the files that `main` writes, and the test that compares them
-- A panic, by `expect` or by `todo!`, is `none`.
--
-- Kora models programs/enclavekit/examples/kora_transfer_sol.rs, one transfer through a relayer, with
-- the request that it takes from programs/enclavekit/tests/common/requests.rs:
--   Kora/Seed             `enclave_key`: the seed out of `ENCLAVE_SEED`
--   Kora/Plan             `main`, steps 2 and 3: the relayer's fee and what the vault needs
--   Kora/Confirm          `confirm` over given statuses
--   Kora/Json             `str_field`, `u64_of` and the indexing of JSON values
--   Kora/Rpc              `JsonRpc::call`: a run takes and returns the log of its requests
--   Kora/Crates           what the example calls and the generator does not, a parameter
--   Kora/Calls            `wallet_nonce`, `rent_exempt_minimum`, `balance`, `fund`, `confirm`
--   Kora/TransferRequest  `TransferSolRequest`, `EnclaveRequest::preimage` and `sign`
--   Kora/Main             `main`: `prepare` is steps 1 to 4, `submit` steps 5 and 6
-- A `?` that fails, and a panic, is `none`, with the log of what was requested until then.
--
-- Examples instantiates every parameter with concrete functions and runs the methods on them.
--
-- Integers. A `u64` is a natural number with the test of `checked_add` written out; `i64` is an
-- integer, with `saturating_add` at its bounds; bytes are naturals, with the bound as a hypothesis
-- where a proof needs it. All loops are structural, so there is no fuel; the 60 rounds of `confirm`
-- are those of the code.
--
-- Parameters. `Platform` holds SHA-256 as a function, the borsh serialiser with its round trip, the
-- derivation of addresses, and the transfer of the System program with two laws: a transfer that
-- succeeds moves the lamports, which the sender had; and it succeeds with the sender's seeds, enough
-- lamports and an address that can be credited. `Sysvars` holds what the runtime answers during one
-- instruction: the instruction before, the clock and the rent. The program's theorems assume no law of
-- SHA-256 and none of signatures: they speak of the key that the precompile instruction names. The
-- life cycle assumes of that instruction only that its key is not 33 zeros, which is no P-256 point.
-- `AccountCodec` is the writer that `#[account]` derives, which writes the documented layout. `Tools`
-- holds the crates of the generator, with the sizes of keys, signatures, digests and encodings, and
-- the layout of the precompile's data as laws; in Vectors a signature is any 64 bytes. `Printer` is the
-- JSON text of a vector. `FileSystem` holds the files under a folder, with the laws that a file
-- written is read back, that a write keeps the other files, and that the folder's canonical name names
-- the same files. `Net` is the network of the example: the JSON of the reply, if there is one, given the
-- requests made before, the address and the body. `Machine` adds the environment, the random bytes and
-- the clock, which may also depend on the requests. None of the network's replies is assumed.
--
-- Not modelled. Anchor's validation of accounts, except that a step acts on the state account of the
-- wallet id that was signed, made as zeros by `init_if_needed` and removed by `close`; the rent that
-- the relayer advances for that account; the `devnet` feature, which shortens the delay; numeric
-- error codes; `emit_cpi!` beyond the list of events; the derived `Serialize` of the vectors and the
-- text of errors; HTTP, the lines printed and the pauses of the Kora example; and the tests, which drive
-- the program in another crate's virtual machine, with the builders that only they use.
pub mod Common
pub mod Encoding
pub mod Program
pub mod Examples
pub mod Vectors
pub mod Kora
