-- ===== src/Arena/Error.antt =====
-- programs/prisoners-arena/src/error.rs: `ArenaError`, with the faults of the runtime.
use prisoners_arena_program.Base.{Result}

-- The last three are no error codes: the transaction is aborted by a constraint of Anchor or by the
-- system program, by a panic, or by the runtime's check that an instruction moves lamports and makes
-- none.
pub data ArenaError : Type 0 where
  invalid_state registration_closed already_entered not_winner already_paid : ArenaError
  unauthorized insufficient_funds matches_incomplete no_fees_to_withdraw claim_expired : ArenaError
  not_expired slot_hash_unavailable tournament_full invalid_entry_account : ArenaError
  invalid_min_participants overflow invalid_match registration_open : ArenaError
  tournament_active entries_remaining tournament_not_closeable : ArenaError
  commitment_mismatch already_revealed reveal_period_ended : ArenaError
  reveal_period_not_ended unprocessed_forfeits unrevealed_strategy : ArenaError
  min_participants_not_reached invalid_bytecode : ArenaError
  constraint_violated panicked unbalanced : ArenaError

abbrev pub Outcome : Type 0 → Type 0
Outcome = Result ArenaError
