-- ===== src/Game/Parity.antt =====
-- Matches of crates/match-logic/src/game.rs between byte programs and between the built-in strategies
-- that they encode, which `assert_match_parity` of crates/match-logic/src/vm.rs compares on samples.
use prisoners_arena_program.Base.{
  ℕ, zero, suc, ◌+◌, ◌%◌, ◌*◌, ◌≡◌, refl, List, length, sym, some, ◌∙◌, ap, length-append,
}
use mathlib.Core.Path.{subst}
use prisoners_arena_program.Random.{SeededRng, new_rng, for_round}
use prisoners_arena_program.Moves.{History}
use prisoners_arena_program.Strategy.{
  StrategyBase, PlayerStrategy, builtin, custom, execute_player_strategy,
}
use prisoners_arena_program.Strategy.Codes.{code_for}
use prisoners_arena_program.Strategy.Parity.{custom-eq-builtin}
use prisoners_arena_program.Game.{
  MatchResult, Table, empty_table, round_result, play_round, play, run_match, round_config,
  determine_round_count,
}

result_of : Table → ℕ → MatchResult
result_of t n = record {
  rounds = t.rounds;
  total_score_a = t.total_a;
  total_score_b = t.total_b;
  round_count = n;
}

-- Two strategies that answer alike on histories of one length, in the round that they make.
abbrev SameMoves : PlayerStrategy → PlayerStrategy → Type 0
SameMoves s s' =
    (opponent mine : History) (rng : SeededRng)
    → length opponent ≡ length mine
    → execute_player_strategy s opponent mine (length opponent) rng
      ≡ execute_player_strategy s' opponent mine (length opponent) rng

module _ (a a' b b' : PlayerStrategy) (same_a : SameMoves a a') (same_b : SameMoves b b') where
  round_result_congr :
      (rng : SeededRng) (t : Table)
      → length t.history_a ≡ length t.history_b
      → round_result a b rng (length t.history_b) t ≡ round_result a' b' rng (length t.history_b) t
  unfolding round_result
  round_result_congr rng t h =
      let hb = t.history_b in
      let ha = t.history_a in
      let seed_a = for_round rng (length hb * 2 % 256) in
      let seed_b = for_round rng ((length hb * 2 + 1) % 256) in
      let eb : execute_player_strategy b ha hb (length hb) seed_b
          ≡ execute_player_strategy b' ha hb (length hb) seed_b =
        subst
          (λ k.
            execute_player_strategy b ha hb k seed_b ≡ execute_player_strategy b' ha hb k seed_b)
          h (same_b ha hb seed_b h) in
      rw (same_a hb ha seed_a (sym h), eb)

  play_round_congr :
      (rng : SeededRng) (t : Table)
      → length t.history_a ≡ length t.history_b
      → play_round a b rng (length t.history_b) t ≡ play_round a' b' rng (length t.history_b) t
  unfolding play_round
  play_round_congr rng t h = rw (round_result_congr rng t h)

  length-play_round :
      (rng : SeededRng) (t : Table)
      → length (play_round a b rng (length t.history_b) t).history_b ≡ length t.history_b + 1
  unfolding play_round
  length-play_round rng t = length-append t.history_b _

  length-play_rounds :
      (rng : SeededRng) (t : Table)
      → length t.history_a ≡ length t.history_b
      → let t' = play_round a b rng (length t.history_b) t in
        length t'.history_a ≡ length t'.history_b
  unfolding play_round
  length-play_rounds rng t h =
      length-append t.history_a _ ∙ ap (λ n. n + 1) h ∙ sym (length-append t.history_b _)

  play_congr :
      (left : ℕ) (rng : SeededRng) (t : Table)
      → length t.history_a ≡ length t.history_b
      → play left a b rng (length t.history_b) t ≡ play left a' b' rng (length t.history_b) t
  unfolding play
  play_congr zero rng t h = refl
  play_congr (suc left) rng t h =
      let t' = play_round a b rng (length t.history_b) t in
      let grown : length t'.history_a ≡ length t'.history_b = length-play_rounds rng t h in
      let next : length t'.history_b ≡ length t.history_b + 1 = length-play_round rng t in
      let same : play_round a b rng (length t.history_b) t
          ≡ play_round a' b' rng (length t.history_b) t =
        play_round_congr rng t h in
      let rest : play left a b rng (length t.history_b + 1) t'
          ≡ play left a' b' rng (length t.history_b + 1) t' =
        subst (λ k. play left a b rng k t' ≡ play left a' b' rng k t') next
          (play_congr left rng t' grown) in
      rest ∙ ap (λ u. play left a' b' rng (length t.history_b + 1) u) same

-- Replacing the byte programs of the parity tests, all but Pavlov's, by the built-in strategies that
-- they encode, on both sides, leaves the whole result of every match as it is.
pub run_match-custom-eq-builtin :
    (s s' : StrategyBase) {code code' : List ℕ} (seed : List ℕ) (index participants : ℕ)
    → code_for s ≡ some code
    → code_for s' ≡ some code'
    → run_match (custom code) (custom code') seed index participants
      ≡ run_match (builtin s) (builtin s') seed index participants
unfolding run_match result_of
run_match-custom-eq-builtin s s' {code = code} {code' = code'} seed index participants h h' =
    let drawn = determine_round_count (new_rng seed index) (round_config participants) in
    let same : play drawn.0 (custom code) (custom code') drawn.1 0 empty_table
        ≡ play drawn.0 (builtin s) (builtin s') drawn.1 0 empty_table =
      play_congr (custom code) (builtin s) (custom code') (builtin s')
        (λ o m r e. custom-eq-builtin s o m r h e) (λ o m r e. custom-eq-builtin s' o m r h' e)
        drawn.0 drawn.1 empty_table refl in
    ap (λ (t : Table). result_of t drawn.0) same
