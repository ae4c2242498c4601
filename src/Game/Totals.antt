-- ===== src/Game/Totals.antt =====
-- How much a match of crates/match-logic/src/game.rs can add to a score.
use prisoners_arena_program.Base.{ℕ, ◌+◌, ◌*◌, ◌≤◌, arith, List, [], ◌∷◌, ◌++◌, length, ap}
use prisoners_arena_program.Random.{SeededRng}
use prisoners_arena_program.Moves.{History, payoff_bounds}
use prisoners_arena_program.Strategy.{PlayerStrategy}
use prisoners_arena_program.Game.{RoundResult, run_match}
use prisoners_arena_program.Game.Rounds.{run_match_round_count-le}
use prisoners_arena_program.Game.Tally.{Follows, sum_of, match_rng, run_match-Follows}

sum_of-le :
    (a b : PlayerStrategy) (rng : SeededRng) (ha hb : History) (x y k : ℕ) (rs : List RoundResult)
    → Follows a b rng ha hb x y k rs
    → (sum_of (λ r. r.score_a) rs ≤ 5 * length rs) × (sum_of (λ r. r.score_b) rs ≤ 5 * length rs)
sum_of-le a b rng ha hb x y k [] f = (omega arith, omega arith)
sum_of-le a b rng ha hb x y k (r ∷ rs) (_, _, _, p, _, _, f) =
    let (small_a, small_b) =
      sum_of-le a b rng (ha ++ r.move_a ∷ []) (hb ++ r.move_b ∷ []) r.cumulative_a r.cumulative_b
        (k + 1) rs f in
    let bounds = payoff_bounds r.move_a r.move_b in
    (omega (arith, ap (λ s. s.0) p, bounds), omega (arith, ap (λ s. s.1) p, bounds))

-- Each player scores at most 250 in a match.
pub run_match-total_le :
    (a b : PlayerStrategy) (seed : List ℕ) (index participants : ℕ)
    → ((run_match a b seed index participants).total_score_a ≤ 250)
      × ((run_match a b seed index participants).total_score_b ≤ 250)
run_match-total_le a b seed index participants =
    let m = run_match a b seed index participants in
    let (l, f, ea, eb) = run_match-Follows a b seed index participants in
    let sums = sum_of-le a b (match_rng seed index participants) [] [] 0 0 0 m.rounds f in
    let few = run_match_round_count-le a b seed index participants in
    (omega (arith, l, ea, sums, few), omega (arith, l, eb, sums, few))
