-- ===== src/Game/Rounds.antt =====
-- The number of rounds that crates/match-logic/src/game.rs draws for a match.
use prisoners_arena_program.Base.{ℕ, zero, suc, ◌+◌, ◌≤◌, arith, List, leb, if◌then◌else◌}
use prisoners_arena_program.Random.{SeededRng, new_rng, next_percent}
use prisoners_arena_program.Strategy.{PlayerStrategy}
use prisoners_arena_program.Game.{count_rounds, determine_round_count, round_config, run_match}

count_rounds_bounds :
    (left p rounds : ℕ) (rng : SeededRng)
    → (rounds ≤ (count_rounds left p rounds rng).0)
      × ((count_rounds left p rounds rng).0 ≤ rounds + left)
unfolding count_rounds
count_rounds_bounds zero p rounds rng = omega arith
count_rounds_bounds (suc left) p rounds rng =
    ground (arith, count_rounds_bounds left p (rounds + 1) (next_percent rng).1)

-- Whatever the seed and the strategies, a match of a tournament of up to 1000 players has 20 to 50
-- rounds, and of a larger one 10 to 30.
pub run_match_round_count :
    (a b : PlayerStrategy) (seed : List ℕ) (index participants : ℕ)
    → ((if leb participants 1000 then 20 else 10)
        ≤ (run_match a b seed index participants).round_count)
      × ((run_match a b seed index participants).round_count
          ≤ (if leb participants 1000 then 50 else 30))
unfolding run_match round_config determine_round_count
run_match_round_count a b seed index participants = ground (
  arith,
  count_rounds_bounds 30 5 20 (new_rng seed index),
  count_rounds_bounds 20 7 10 (new_rng seed index),
)

pub run_match_round_count-le :
    (a b : PlayerStrategy) (seed : List ℕ) (index participants : ℕ)
    → (run_match a b seed index participants).round_count ≤ 50
run_match_round_count-le a b seed index participants =
    ground (arith, run_match_round_count a b seed index participants)
