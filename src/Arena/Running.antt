-- ===== src/Arena/Running.antt =====
-- programs/prisoners-arena/src/instructions/tournament.rs: `run_matches`. The accounts passed along
-- are given by the players whose entries they are.
use prisoners_arena_program.Base.{
  ℕ, zero, suc, ◌+◌, ◌%◌, ◌^◌, Bool, false, not, ◌||◌, none, some, List, [], ◌∷◌, ok, err, require,
  ok_or, ◌>>=◌, ◌>>◌, leb, ◌==◌, if◌then◌else◌, length, take, get_elem?, add_u32, sub_u32, min,
}
use prisoners_arena_program.Game.{run_match}
use prisoners_arena_program.Pairing.{get_pairing_for_match}
use prisoners_arena_program.Strategy.{PlayerStrategy}
use prisoners_arena_program.Arena.Error.{
  Outcome, invalid_state, overflow, unauthorized, unrevealed_strategy, invalid_match,
  invalid_entry_account, panicked,
}
use prisoners_arena_program.Arena.State.{
  Pubkey, is_default, running, same_state, Entry, no_strategy, matches_per_tx, is_custom,
  to_player_strategy,
}
use prisoners_arena_program.Arena.World.{World, find_entry, write_entry, assign, checked_u32}
use prisoners_arena_program.Arena.Lifecycle.{add_costs}

-- The loop over `players`: each active player has a strategy.
unfoldable pub all_revealed : List Pubkey → List ℕ → Outcome (Unit {0})
all_revealed [] ss = ok tt
all_revealed (k ∷ ks) [] = if is_default k then all_revealed ks [] else err panicked
all_revealed (k ∷ ks) (s ∷ ss) =
    if is_default k
    then all_revealed ks ss
    else (do require (not (s == no_strategy)) unrevealed_strategy; all_revealed ks ss)

abbrev pub is_passed : Pubkey → List Pubkey → Bool
is_passed player [] = false
is_passed player (p ∷ ps) = (p == player) || is_passed player ps

-- `find_entry_account` and `deserialize_entry`
unfoldable pub find_entry_account : List Pubkey → Pubkey → World → Outcome Entry
find_entry_account passed player w = do
  require (is_passed player passed) invalid_entry_account
  a ← ok_or (find_entry player w.entries) invalid_entry_account
  ok a.entry

-- The strategy that an entry plays with.
unfoldable pub strategy_of : Entry → Outcome PlayerStrategy
strategy_of e =
    if is_custom e.strategy
    then (do
      require (leb e.bytecode_len (length e.bytecode)) panicked
      ok (to_player_strategy e.strategy (some (take e.bytecode_len e.bytecode))))
    else ok (to_player_strategy e.strategy none)

-- `score.checked_add(..)?` and `matches_played += 1`
unfoldable pub add_result : ℕ → Entry → Outcome Entry
add_result score e = do
  total ← ok_or (checked_u32 (e.score + score)) overflow
  ok (record e { score = total; matches_played = (e.matches_played + 1) % 2 ^ 16 })

-- `scores[index] = scores[index].checked_add(..)?`
unfoldable pub add_score : ℕ → ℕ → List ℕ → Outcome (List ℕ)
add_score index score scores = do
  old ← ok_or (get_elem? scores index) panicked
  total ← ok_or (checked_u32 (old + score)) overflow
  assign scores index total

abbrev pub complete_one : World → World
complete_one w = record w {
  tournament = record w.tournament { matches_completed = add_u32 w.tournament.matches_completed 1 };
}

-- The match of two players, with its result in the entries and in the tournament.
unfoldable pub play_pair : List Pubkey → ℕ → ℕ → ℕ → Pubkey → Pubkey → World → Outcome World
play_pair passed match_index idx_a idx_b player_a player_b w = do
  entry_a ← find_entry_account passed player_a w
  entry_b ← find_entry_account passed player_b w
  require (entry_a.index == idx_a) invalid_entry_account
  require (entry_b.index == idx_b) invalid_entry_account
  strategy_a ← strategy_of entry_a
  strategy_b ← strategy_of entry_b
  let result =
      run_match strategy_a strategy_b w.tournament.randomness_seed match_index
        w.tournament.participant_count
  entry_a' ← add_result result.total_score_a entry_a
  entry_b' ← add_result result.total_score_b entry_b
  scores₁ ← add_score idx_a result.total_score_a w.tournament.scores
  scores₂ ← add_score idx_b result.total_score_b scores₁
  ok (
      complete_one (record w {
        tournament = record w.tournament { scores = scores₂ };
        entries = write_entry player_b entry_b' (write_entry player_a entry_a' w.entries);
      }))

-- The body of the loop over the batch.
unfoldable pub run_one : List Pubkey → ℕ → World → Outcome World
run_one passed match_index w = do
  (idx_a, idx_b) ←
      ok_or
        (get_pairing_for_match w.tournament.participant_count w.tournament.matches_per_player
          w.tournament.randomness_seed match_index)
        invalid_match
  player_a ← ok_or (get_elem? w.tournament.players idx_a) invalid_match
  player_b ← ok_or (get_elem? w.tournament.players idx_b) invalid_match
  if is_default player_a || is_default player_b
      then ok (complete_one w)
      else play_pair passed match_index idx_a idx_b player_a player_b w

-- The first argument is the number of matches left of the batch.
unfoldable pub run_batch : ℕ → List Pubkey → ℕ → World → Outcome World
run_batch zero passed match_index w = ok w
run_batch (suc left) passed match_index w = do
  w' ← run_one passed match_index w
  run_batch left passed (add_u32 match_index 1) w'

unfoldable pub run_matches : Pubkey → List Pubkey → World → Outcome World
run_matches signer passed w = do
  require (signer == w.config.operator) unauthorized
  require (same_state w.tournament.state running) invalid_state
  let matches_to_run =
      min matches_per_tx (sub_u32 w.tournament.matches_total w.tournament.matches_completed)
  if matches_to_run == 0 then ok w else (do
    t ← add_costs w.config.operator_tx_fee w.tournament
    all_revealed t.players t.strategies
    run_batch matches_to_run passed t.matches_completed (record w { tournament = t }))
