-- ===== src/Lib.antt =====
-- Prisoner's Arena: an on-chain tournament of the iterated prisoner's dilemma.
--
-- The program has two parts. crates/match-logic is a library of pure functions: a byte machine and
-- built-in strategies choose moves, `run_match` plays a match of a drawn number of rounds, and
-- `get_pairing_for_match` tells which two players meet in a match. programs/prisoners-arena is the
-- on-chain program that keeps the config, a tournament and an entry for each player, and runs
-- the tournament through registration, reveal, running and payout, calling the library.
--
--   Base      shared types, lists and tests on native numbers; `Result` with `require!` and `?`;
--             signed 64-bit numbers
--   Random    crates/match-logic/src/random.rs
--   Moves     the moves of strategy.rs and the payoff matrix of lib.rs in crates/match-logic/src
--   Vm        crates/match-logic/src/vm.rs: `execute_bytecode` and its loop, the opcodes in
--             Vm/Opcode, `validate_bytecode` in Vm/Validate; the other children are theorems
--   Strategy  crates/match-logic/src/strategy.rs; Strategy/Codes has the byte programs of the
--             parity tests of vm.rs
--   Game      crates/match-logic/src/game.rs
--   Pairing   crates/match-logic/src/pairing.rs: Counts, Roots (`isqrt_ceil`), Feistel, Offsets,
--             Pairs (unranking and the two modes); Schedule, All and Meeting are theorems
--   Arena     programs/prisoners-arena/src: Error and State for error.rs and state.rs, World for the
--             accounts with their lamports, Ledger for wallets; Admin and Player for the files of
--             these names in instructions, and Lifecycle (close_registration, close_reveal,
--             forfeit_unrevealed), Running (run_matches), Finalize (finalize_tournament) and Closing
--             (close_entry, close_tournament) for instructions/tournament.rs; Session has
--             sequences of instructions on one tournament, the calls of lib.rs, and Store those on
--             all the accounts. Lamports, Conservation, Settlement, Award, Phases, Sound
--             (well-formedness of the accounts), Sync (the scores of entries and tournament), Pool
--             (the stakes), Winners, Solvency, Finishing (the finalization), Payout (what is
--             owed to the winners), Settings, Commitment, Refusals, Progress (the matches, call
--             after call) and Opening (the way into them) are theorems
--   Bindings  crates/match-logic/src/wasm.rs, what the browser calls; Bindings/Names has the names of
--             the strategies, Bindings/Pairings and Bindings/Stats are theorems
--   Tests     the theorems at concrete inputs
--
-- Functions keep their names. An `impl` or a mutable local becomes a record that is passed on; a
-- generator is returned with the number drawn; `?` is a bind. A loop is a function by recursion on
-- the number of turns that are left. A u8, u32 or u64 is a native number, with the wrap-around of a
-- build without overflow checks written out wherever the source does not check; i64 is ℤ in
-- Base/Int. An array access that would panic is `panicked`, a `-=` of lamports below zero
-- is `unbalanced`, since the runtime rejects the transaction; and an error discards the state.
--
-- Bounds. The fuel of the byte machine is the source's, 128. The Newton iterations of Pairing/Roots
-- and the walk of Pairing/Feistel run on fuel: 2^32 or 2^64 for Newton, which is more than the
-- first value, and this falls at every turn; rank + 2 for the upward correction of `unrank_pair`,
-- which takes its estimate up by less; 1000, the source's bound, for the walk. The theorems on the
-- whole schedule speak of up to 5000 players, the limit that `MAX_PARTICIPANTS` names.
--
-- From outside of the repository come the rent of an account, what Anchor charges for a growing
-- account and SHA-256: the fields of the record `Runtime`. A store has the tournaments by their
-- ids, and a world one of them with its entries, each at the address of its player; so the
-- constraints that tie an entry to its tournament hold by construction, but for `refund_entry` of
-- `close_reveal`, which the source does not tie: with one of another tournament the transaction is
-- `refunds_from` of Store. Accounts that an instruction is passed are named by their players. The account of a tournament that is closed
-- keeps its record in a world, with nothing in it; in a store it is no longer open. `serde_json` is
-- the record `Json` of Bindings, and what a binding serializes is its result.
--
-- Not modelled: `expected_rounds` and `avg_rounds` (f64, for display), the Display of errors (text),
-- the messages of `msg!`, the serialization of accounts and results, an entry that is left of a
-- closed tournament as a `refund_entry`, and the runtime's own check after a transaction that the
-- accounts keep their rent: that a handler accepts is what the theorems say.
pub mod Base
pub mod Random
pub mod Moves
pub mod Vm
pub mod Strategy
pub mod Game
pub mod Pairing
pub mod Arena
pub mod Bindings
mod Tests
