-- ===== src/Game/Tally.antt =====
-- The transcript of a match of crates/match-logic/src/game.rs: every round's moves, scores and
-- running totals.
use prisoners_arena_program.Base.{
  ℕ, zero, suc, ◌+◌, ◌*◌, ◌%◌, ◌≤◌, ◌<◌, ◌≡◌, refl, arith, List, [], ◌∷◌, ◌++◌, length, ◌∙◌, ap,
  sym,
}
use mathlib.Core.List.{append_assoc, append-nil}
use native.Mathlib.Nat.{zero-add}
use prisoners_arena_program.Random.{SeededRng, new_rng, for_round}
use prisoners_arena_program.Moves.{History, payoff, payoff_bounds}
use prisoners_arena_program.Strategy.{PlayerStrategy, execute_player_strategy}
use prisoners_arena_program.Game.{
  RoundResult, Table, round_result, empty_table, play_round, play, run_match, determine_round_count,
  round_config,
}
use prisoners_arena_program.Game.Rounds.{run_match_round_count-le}

-- Rounds that follow from the histories `ha` and `hb`, with the totals `a` and `b` before them: each
-- player answers the other's moves so far, the scores are those of the payoff matrix, and the
-- running totals are true sums.
module _ (strategy_a strategy_b : PlayerStrategy) (rng : SeededRng) where
  abbrev pub Follows : History → History → ℕ → ℕ → ℕ → List RoundResult → Type 0
  Follows ha hb a b k [] = Unit
  Follows ha hb a b k (r ∷ rs) =
      (r.round ≡ k)
      × (r.move_a ≡ execute_player_strategy strategy_a hb ha k (for_round rng (2 * k)))
      × (r.move_b ≡ execute_player_strategy strategy_b ha hb k (for_round rng (2 * k + 1)))
      × ((r.score_a, r.score_b) ≡ payoff r.move_a r.move_b)
      × (r.cumulative_a ≡ a + r.score_a)
      × (r.cumulative_b ≡ b + r.score_b)
      × Follows (ha ++ r.move_a ∷ []) (hb ++ r.move_b ∷ []) r.cumulative_a r.cumulative_b (k + 1) rs

-- The generator of a match after the draw of its length.
pub match_rng : List ℕ → ℕ → ℕ → SeededRng
match_rng seed index participants =
    (determine_round_count (new_rng seed index) (round_config participants)).1

-- The sum of a score over the rounds.
abbrev pub sum_of : (RoundResult → ℕ) → List RoundResult → ℕ
sum_of f [] = 0
sum_of f (r ∷ rs) = f r + sum_of f rs

module _ (strategy_a strategy_b : PlayerStrategy) (rng : SeededRng) where
  -- The scores of one round are small, so a total that is small does not wrap.
  round_result-scores :
      (k : ℕ) (t : Table)
      → ((round_result strategy_a strategy_b rng k t).score_a ≤ 5)
        × ((round_result strategy_a strategy_b rng k t).score_b ≤ 5)
  unfolding round_result
  round_result-scores k t = payoff_bounds _ _

  round_result-totals :
      (k : ℕ) (t : Table)
      → k < 128
      → t.total_a ≤ 5 * k
      → t.total_b ≤ 5 * k
      → let r = round_result strategy_a strategy_b rng k t in
        (r.cumulative_a ≡ t.total_a + r.score_a)
        × (r.cumulative_b ≡ t.total_b + r.score_b)
        × (r.cumulative_a ≤ 5 * (k + 1))
        × (r.cumulative_b ≤ 5 * (k + 1))
  unfolding round_result
  round_result-totals k t h p q = omega (arith, round_result-scores k t)

  round_result-Follows :
      (k : ℕ) (t : Table) (rs : List RoundResult)
      → k < 128
      → t.total_a ≤ 5 * k
      → t.total_b ≤ 5 * k
      → let r = round_result strategy_a strategy_b rng k t in
        Follows strategy_a strategy_b rng
          (t.history_a ++ r.move_a ∷ [])
          (t.history_b ++ r.move_b ∷ [])
          r.cumulative_a
          r.cumulative_b
          (k + 1)
          rs
        → Follows strategy_a strategy_b rng t.history_a t.history_b t.total_a t.total_b k (r ∷ rs)
  unfolding round_result
  round_result-Follows k t rs h p q f =
      let seeds_a : k * 2 % 256 ≡ 2 * k = omega arith in
      let seeds_b : (k * 2 + 1) % 256 ≡ 2 * k + 1 = omega arith in
      let totals = round_result-totals k t h p q in
      (
        refl,
        ap (λ s. execute_player_strategy strategy_a t.history_b t.history_a k (for_round rng s))
            seeds_a,
        ap (λ s. execute_player_strategy strategy_b t.history_a t.history_b k (for_round rng s))
            seeds_b,
        refl,
        totals.0,
        totals.1,
        f,
      )

  play-Follows :
      (left k : ℕ) (t : Table)
      → k + left ≤ 128
      → t.total_a ≤ 5 * k
      → t.total_b ≤ 5 * k
      → let t' = play left strategy_a strategy_b rng k t in
        (rs : List RoundResult) × (t'.rounds ≡ t.rounds ++ rs)
        × (length rs ≡ left)
        × Follows strategy_a strategy_b rng t.history_a t.history_b t.total_a t.total_b k rs
        × (t'.total_a ≡ t.total_a + sum_of (λ r. r.score_a) rs)
        × (t'.total_b ≡ t.total_b + sum_of (λ r. r.score_b) rs)
  unfolding play play_round
  play-Follows zero k t h p q = ([], sym (append-nil t.rounds), refl, tt, omega arith, omega arith)
  play-Follows (suc left) k t h p q =
      let r = round_result strategy_a strategy_b rng k t in
      let totals = round_result-totals k t (omega arith) p q in
      let (rs, e, l, f, ea, eb) =
        play-Follows left (k + 1) (play_round strategy_a strategy_b rng k t) (omega arith) totals.2
          totals.3 in
      (
        r ∷ rs,
        e ∙ append_assoc t.rounds (r ∷ []) rs,
        ap suc l,
        round_result-Follows k t rs (omega arith) p q f,
        omega (arith, ea, totals.0),
        omega (arith, eb, totals.1),
      )

-- The result of a match: as many rounds as were drawn, each following from those before it, and
-- totals that are the sums of the rounds' scores, with no wrap-around.
pub run_match-Follows :
    (strategy_a strategy_b : PlayerStrategy) (seed : List ℕ) (index participants : ℕ)
    → let m = run_match strategy_a strategy_b seed index participants in
      (length m.rounds ≡ m.round_count)
      × Follows strategy_a strategy_b (match_rng seed index participants) [] [] 0 0 0 m.rounds
      × (m.total_score_a ≡ sum_of (λ r. r.score_a) m.rounds)
      × (m.total_score_b ≡ sum_of (λ r. r.score_b) m.rounds)
unfolding run_match match_rng
run_match-Follows strategy_a strategy_b seed index participants =
    let m = run_match strategy_a strategy_b seed index participants in
    let few = run_match_round_count-le strategy_a strategy_b seed index participants in
    let (rs, e, l, f, ea, eb) =
      play-Follows strategy_a strategy_b (match_rng seed index participants) m.round_count 0
        empty_table (omega (arith, few)) (omega arith) (omega arith) in
    (rw e l, rw e f, rw e (ea ∙ zero-add _), rw e (eb ∙ zero-add _))
