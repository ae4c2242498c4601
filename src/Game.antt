-- ===== src/Game.antt =====
-- crates/match-logic/src/game.rs: the number of rounds of a match, and the match itself.
pub mod Rounds
pub mod Tally
pub mod Totals
pub mod Parity
use prisoners_arena_program.Base.{
  ℕ, zero, suc, ◌+◌, ◌-◌, ◌*◌, ◌%◌, List, [], ◌∷◌, ◌++◌, ltb, leb, if◌then◌else◌, add_u32,
}
use prisoners_arena_program.Random.{SeededRng, new_rng, for_round, next_percent}
use prisoners_arena_program.Moves.{Move, History, payoff}
use prisoners_arena_program.Strategy.{PlayerStrategy, execute_player_strategy}

pub record RoundResult : Type 0 where
  pub round : ℕ
  pub move_a : Move
  pub move_b : Move
  pub score_a : ℕ
  pub score_b : ℕ
  pub cumulative_a : ℕ
  pub cumulative_b : ℕ

pub record MatchResult : Type 0 where
  pub rounds : List RoundResult
  pub total_score_a : ℕ
  pub total_score_b : ℕ
  pub round_count : ℕ

pub record RoundConfig : Type 0 where
  pub min_rounds : ℕ
  pub max_rounds : ℕ
  pub end_probability : ℕ

abbrev pub standard : RoundConfig
standard = record { min_rounds = 20; max_rounds = 50; end_probability = 5 }

abbrev pub compressed : RoundConfig
compressed = record { min_rounds = 10; max_rounds = 30; end_probability = 7 }

-- The `while rounds < max_rounds` loop; the first argument is `max_rounds - rounds`.
unfoldable pub count_rounds : ℕ → ℕ → ℕ → SeededRng → ℕ × SeededRng
count_rounds zero end_probability rounds rng = (rounds, rng)
count_rounds (suc left) end_probability rounds rng =
    let (percent, rng') = next_percent rng in
    let more = count_rounds left end_probability (rounds + 1) rng' in
    if ltb percent end_probability then (rounds, rng') else more

unfoldable pub determine_round_count : SeededRng → RoundConfig → ℕ × SeededRng
determine_round_count rng config =
    count_rounds (config.max_rounds - config.min_rounds) config.end_probability config.min_rounds
      rng

-- The locals that the rounds change.
pub record Table : Type 0 where
  pub history_a : History
  pub history_b : History
  pub rounds : List RoundResult
  pub total_a : ℕ
  pub total_b : ℕ

abbrev pub empty_table : Table
empty_table = record { history_a = []; history_b = []; rounds = []; total_a = 0; total_b = 0 }

-- The moves, scores and totals of a round. The generator of the match only seeds those of the
-- rounds; `round * 2` is a `u8`.
unfoldable pub round_result : PlayerStrategy → PlayerStrategy → SeededRng → ℕ → Table → RoundResult
round_result strategy_a strategy_b rng round t =
    let rng_a = for_round rng (round * 2 % 256) in
    let rng_b = for_round rng ((round * 2 + 1) % 256) in
    let move_a = execute_player_strategy strategy_a t.history_b t.history_a round rng_a in
    let move_b = execute_player_strategy strategy_b t.history_a t.history_b round rng_b in
    let (score_a, score_b) = payoff move_a move_b in
    record {
      round = round;
      move_a = move_a;
      move_b = move_b;
      score_a = score_a;
      score_b = score_b;
      cumulative_a = add_u32 t.total_a score_a;
      cumulative_b = add_u32 t.total_b score_b;
    }

-- The body of `for round in 0..round_count`.
unfoldable pub play_round : PlayerStrategy → PlayerStrategy → SeededRng → ℕ → Table → Table
play_round strategy_a strategy_b rng round t =
    let r = round_result strategy_a strategy_b rng round t in
    record {
      history_a = t.history_a ++ r.move_a ∷ [];
      history_b = t.history_b ++ r.move_b ∷ [];
      rounds = t.rounds ++ r ∷ [];
      total_a = r.cumulative_a;
      total_b = r.cumulative_b;
    }

-- The first argument is the number of rounds left.
unfoldable pub play : ℕ → PlayerStrategy → PlayerStrategy → SeededRng → ℕ → Table → Table
play zero strategy_a strategy_b rng round t = t
play (suc left) strategy_a strategy_b rng round t =
    play left strategy_a strategy_b rng (round + 1) (play_round strategy_a strategy_b rng round t)

unfoldable pub round_config : ℕ → RoundConfig
round_config participant_count = if leb participant_count 1000 then standard else compressed

unfoldable pub run_match : PlayerStrategy → PlayerStrategy → List ℕ → ℕ → ℕ → MatchResult
run_match strategy_a strategy_b seed match_index participant_count =
    let (round_count, rng) =
      determine_round_count (new_rng seed match_index) (round_config participant_count) in
    let t = play round_count strategy_a strategy_b rng 0 empty_table in
    record {
      rounds = t.rounds;
      total_score_a = t.total_a;
      total_score_b = t.total_b;
      round_count = round_count;
    }
