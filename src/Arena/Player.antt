-- ===== src/Arena/Player.antt =====
-- programs/prisoners-arena/src/instructions/player.rs: the players' instructions. The signer and the
-- clock are arguments; `bump` is that of the new entry's address.
use prisoners_arena_program.Base.{
  ℕ, ◌+◌, ◌*◌, ◌/◌, ◌%◌, ◌^◌, Bool, true, false, not, ◌&&◌, Option, none, some, List, [], ◌∷◌, ◌++◌,
  Result, ok, err, require, ok_or, ◌>>=◌, ◌>>◌, ltb, leb, ◌==◌, if◌then◌else◌, length, drop,
  replicate, add_u32, add_u64,
}
use prisoners_arena_program.Base.Int.{ℤ, leb_ℤ, ltb_ℤ, add_i64}
use prisoners_arena_program.Vm.{max_bytecode_len}
use prisoners_arena_program.Vm.Validate.{validate_bytecode}
use prisoners_arena_program.Arena.Error.{
  Outcome, registration_closed, tournament_full, constraint_violated, invalid_state, overflow,
  reveal_period_ended, already_revealed, invalid_bytecode, commitment_mismatch, already_paid,
  claim_expired, not_winner,
}
use prisoners_arena_program.Arena.State.{
  Pubkey, default_key, Tournament, registration, reveal, payout, same_state, Entry, Strategy,
  is_custom, strategy_index, no_strategy, base_space, bytes_per_player, entry_len,
  claim_expiry_seconds,
}
use prisoners_arena_program.Arena.World.{
  Runtime, World, find_entry, write_entry, opened, close_to, charge, assign, take_from_tournament,
  pay_wallet,
}
use prisoners_arena_program.Arena.Ledger.{checked_sub}

-- The entry of a player who has just entered.
unfoldable pub new_entry : Pubkey → ℕ → List ℕ → ℤ → ℕ → Entry
new_entry player index commitment now bump = record {
  player = player;
  index = index;
  commitment = commitment;
  strategy = Strategy.tit_for_tat;
  revealed = false;
  score = 0;
  matches_played = 0;
  paid_out = false;
  created_at = now;
  bump = bump;
  bytecode_len = 0;
  bytecode = replicate 64 0;
}

-- The tournament with one more player.
unfoldable pub add_player : Pubkey → Tournament → Tournament
add_player player t = record t {
  players = t.players ++ player ∷ [];
  scores = t.scores ++ 0 ∷ [];
  strategies = t.strategies ++ no_strategy ∷ [];
  participant_count = add_u32 t.participant_count 1;
  entries_remaining = add_u32 t.entries_remaining 1;
  pool = add_u64 t.pool t.stake;
}

-- Anchor's part: the tournament's account grows by a slot and the entry's account is made, both at
-- the player's expense.
unfoldable pub open_entry : Runtime → Pubkey → World → Outcome World
open_entry rt player w = do
  let growth =
      rt.realloc_charge (base_space + (length w.tournament.players + 1) * bytes_per_player)
        w.tournament_lamports
  w₁ ← charge player growth w
  let w₂ = record w₁ { tournament_lamports = w₁.tournament_lamports + growth }
  elim (find_entry player w.entries) [
    | some _ ↦ err constraint_violated
    | none ↦ charge player (rt.minimum_balance entry_len) w₂
  ]

unfoldable pub enter_tournament : Runtime → Pubkey → List ℕ → ℤ → ℕ → World → Outcome World
enter_tournament rt player commitment now bump w = do
  w₁ ← open_entry rt player w
  require (same_state w₁.tournament.state registration) registration_closed
  require (ltb (length w₁.tournament.players) w₁.config.max_participants) tournament_full
  w₂ ← charge player w₁.tournament.stake w₁
  let e = new_entry player (length w₂.tournament.players % 2 ^ 32) commitment now bump
  ok (record w₂ {
    tournament = add_player player w₂.tournament;
    tournament_lamports = w₂.tournament_lamports + w₂.tournament.stake;
    entries = record { entry = e; lamports = rt.minimum_balance entry_len } ∷ w₂.entries;
  })

-- `a == b` on byte arrays
unfoldable pub same_bytes : List ℕ → List ℕ → Bool
same_bytes [] [] = true
same_bytes [] (y ∷ ys) = false
same_bytes (x ∷ xs) [] = false
same_bytes (x ∷ xs) (y ∷ ys) = let rest = same_bytes xs ys in if x == y then rest else false

-- The bytes whose hash is the commitment to a strategy.
unfoldable pub preimage : Runtime → Strategy → List ℕ → List ℕ → List ℕ
preimage rt s salt code =
    if is_custom s then strategy_index s ∷ rt.hash code ++ salt else strategy_index s ∷ salt

abbrev pub is_ok : {E A : Type 0} → Result E A → Bool
is_ok (ok _) = true
is_ok (err _) = false

-- `entry.bytecode[..code.len()].copy_from_slice(code)` and its length
abbrev pub store_code : List ℕ → Entry → Entry
store_code code e = record e {
  bytecode_len = length code % 256;
  bytecode = code ++ drop (length code) e.bytecode;
}

-- The checks of the custom branch, up to the entry with the code; the builtin branch stores none.
unfoldable pub check_commitment :
    Runtime → Strategy → List ℕ → Option (List ℕ) → Entry → Outcome Entry
check_commitment rt s salt bytecode e =
    if is_custom s
    then (do
      code ← ok_or bytecode invalid_bytecode
      require (ltb 0 (length code) && leb (length code) max_bytecode_len) invalid_bytecode
      require (is_ok (validate_bytecode code)) invalid_bytecode
      require (same_bytes (rt.hash (preimage rt s salt code)) e.commitment) commitment_mismatch
      ok (store_code code e))
    else (do
      require (same_bytes (rt.hash (preimage rt s salt [])) e.commitment) commitment_mismatch
      ok e)

unfoldable pub reveal_strategy :
    Runtime → Pubkey → Strategy → List ℕ → Option (List ℕ) → ℤ → World → Outcome World
reveal_strategy rt player s salt bytecode now w = do
  a ← opened player w
  require (same_state w.tournament.state reveal) invalid_state
  require (leb_ℤ now w.tournament.reveal_ends) reveal_period_ended
  require (not a.entry.revealed) already_revealed
  e ← check_commitment rt s salt bytecode a.entry
  strategies ← assign w.tournament.strategies e.index (strategy_index s)
  ok (record w {
    tournament = record w.tournament {
      strategies = strategies;
      reveals_completed = add_u32 w.tournament.reveals_completed 1;
    };
    entries = write_entry player (record e { strategy = s; revealed = true }) w.entries;
  })

-- The slot of a player who leaves is emptied, and the counters go down.
unfoldable pub drop_player : ℕ → Tournament → Outcome Tournament
drop_player index t = do
  players ← assign t.players index default_key
  strategies ← assign t.strategies index no_strategy
  participants ← ok_or (checked_sub t.participant_count 1) overflow
  entries ← ok_or (checked_sub t.entries_remaining 1) overflow
  pool ← ok_or (checked_sub t.pool t.stake) overflow
  ok (record t {
    players = players;
    strategies = strategies;
    participant_count = participants;
    entries_remaining = entries;
    pool = pool;
  })

unfoldable pub claim_refund : Pubkey → World → Outcome World
claim_refund player w = do
  a ← opened player w
  require (same_state w.tournament.state registration) invalid_state
  w₁ ← take_from_tournament w.tournament.stake w
  t ← drop_player a.entry.index w₁.tournament
  let w₂ = pay_wallet player w.tournament.stake (record w₁ { tournament = t })
  ok (close_to player a.lamports w₂)

-- The equal share of a winner.
unfoldable pub share : Tournament → ℕ
share t = t.winner_pool / t.winner_count

-- `entry.paid_out = true` is lost with the entry, which is closed.
unfoldable pub claim_payout : Pubkey → ℤ → World → Outcome World
claim_payout player now w = do
  a ← opened player w
  require (same_state w.tournament.state payout) invalid_state
  require (not a.entry.paid_out) already_paid
  require (ltb_ℤ now (add_i64 w.tournament.payout_started_at claim_expiry_seconds)) claim_expired
  require (leb w.tournament.min_winning_score a.entry.score) not_winner
  require (not (w.tournament.winner_count == 0)) overflow
  w₁ ← take_from_tournament (share w.tournament) w
  remaining ← ok_or (checked_sub w.tournament.entries_remaining 1) overflow
  let w₂ = record w₁ {
    tournament = record w₁.tournament {
      claims_processed = add_u32 w.tournament.claims_processed 1;
      entries_remaining = remaining;
    };
  }
  ok (close_to player a.lamports (pay_wallet player (share w.tournament) w₂))
