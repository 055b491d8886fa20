-- ===== src/Lib.antt =====
-- The Shake escrow rail (programs/shake-escrow): an Anchor program on Solana in which two wallets stake
-- the same amount of one token on a wager, and a resolver, a concession, an agreed cancellation or
-- the passing of the deadlines decides who is paid.
--
-- The program's parts and their modules:
--   programs/shake-escrow/src/state.rs, constants.rs     State: accounts, their tests, constants
--   programs/shake-escrow/src/error.rs                   Base/Results: `ShakeError`, `Result`
--   programs/shake-escrow/src/events.rs                  Events
--   programs/shake-escrow/src/lib.rs                     Program: the entry points and their signers
--   programs/shake-escrow/src/instructions/*.rs          Instructions, one module for each file, with
--       the accounts struct as a record of keys, its constraints as the function of the instruction's
--       name, and the handler as `handle_...` with its checks as `check_...` where it is long; the
--       child module Effect reads off what a successful run checked and wrote
-- and what is common to them:
--   Base      native numbers, u8, u16, u64, u128 and i64 arithmetic (checked, saturating, and with the
--             panic that overflow-checks = true of Cargo.toml gives), results, association lists
--   Runtime   what the program calls and does not contain, as one record: the token program, the
--             associated token program, program addresses, signing keys and the upgrade authority.
--             Runtime/Laws states the documented behaviour that the theorems use
--   World     the accounts that the program reads and writes, the clock, the events, the rents; and the
--             loading of accounts by their constraints
-- Beside the program stands the harness that fuzzes it, trident-tests/fuzz_0/test_fuzz.rs: Shadow holds
-- its model of what the chain should hold, Shadow/Flows what each flow expects and writes,
-- Shadow/Sending the transactions, Shadow/Coupling and Shadow/Circulation the invariants that it
-- checks, Shadow/Campaign its runs, and the other modules of Shadow the flows one by one.
-- The theorems stand in Custody (the books of the whole system), Lifecycle (the states of a wager),
-- Configuration (the config account), Safety (panics), Widths (the ranges of what is stored) and beside
-- the instructions. Tests holds a runtime that meets the laws, runs of the program on it, and the
-- theorems at concrete inputs.
--
-- Modelling. A public key and the hash of the terms are natural numbers, the default key is 0. The
-- config and the pending admin transfer each stand at a fixed address, so each is one slot of the
-- world; wagers are an association list by address, counters and token accounts functions of the
-- address. An instruction returns an error or the new world, since a failed transaction leaves no
-- trace. Accounts load in the order of the struct, then the handler runs. Events and rents are kept
-- newest first. There is no recursion but over lists, so no fuel.
--
-- Not modelled: lamports and the amounts of rents, writability of accounts, account discriminators
-- and sizes, owners by program, delegates and mint extensions, wrapped SOL, the refusal of
-- duplicate mutable accounts, compute limits, and the tests of programs/shake-escrow/tests. Of
-- trident-tests, the generated types.rs and fuzz_accounts.rs, the random choices (they are
-- arguments of a flow), the calls of Trident, and the abort on a violated invariant. A wallet or a
-- wager of the harness is named by its key where the source uses its index, and a transaction that
-- the harness does not send counts as refused.
pub mod Base
pub mod State
pub mod Events
pub mod Runtime
pub mod World
pub mod Instructions
pub mod Program
pub mod Custody
mod Tests
pub mod Lifecycle
pub mod Configuration
pub mod Safety
pub mod Shadow
pub mod Widths
