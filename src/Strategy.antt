-- ===== src/Strategy.antt =====
-- crates/match-logic/src/strategy.rs: the built-in strategies and the dispatch to the machine.
pub mod Codes
pub mod Parity
use prisoners_arena_program.Base.{
  ℕ, suc, ◌+◌, ◌-◌, ◌*◌, ◌/◌, Bool, true, false, ◌&&◌, ◌||◌, Option, none, some, List, [], ◌∷◌, ltb,
  leb, if◌then◌else◌, length, get_or, last?,
}
use prisoners_arena_program.Random.{SeededRng, next_percent}
use prisoners_arena_program.Moves.{
  Move, cooperate, defect, History, is_defect, payoff, or_cooperate,
}
use prisoners_arena_program.Vm.{Input, defections, execute_bytecode}

pub data StrategyBase : Type 0 where
  tit_for_tat always_defect always_cooperate grim_trigger pavlov : StrategyBase
  suspicious_tit_for_tat random tit_for_two_tats gradual : StrategyBase

-- `struct Strategy` has the one field `base`, so it is its base.
abbrev pub Strategy : Type 0
Strategy = StrategyBase

unfoldable pub execute_tit_for_tat : History → Move
execute_tit_for_tat opponent = elim (last? opponent) [ none ↦ cooperate | some m ↦ m ]

-- `opponent_history.iter().any(|m| *m == Move::Defect)`
unfoldable pub any_defect : History → Bool
any_defect [] = false
any_defect (m ∷ ms) = is_defect m || any_defect ms

unfoldable pub execute_grim_trigger : History → Move
execute_grim_trigger opponent = if any_defect opponent then defect else cooperate

abbrev pub switch : Move → Move
switch cooperate = defect
switch defect = cooperate

unfoldable pub execute_pavlov : History → History → Move
execute_pavlov opponent [] = cooperate
execute_pavlov opponent (m ∷ ms) =
    let mine = or_cooperate (last? (m ∷ ms)) in
    let (score, _) = payoff mine (or_cooperate (last? opponent)) in
    if leb 3 score then mine else switch mine

unfoldable pub execute_suspicious_tit_for_tat : History → Move
execute_suspicious_tit_for_tat opponent = elim (last? opponent) [ none ↦ defect | some m ↦ m ]

unfoldable pub execute_random : SeededRng → Move
execute_random rng = if ltb (next_percent rng).0 50 then cooperate else defect

unfoldable pub execute_tit_for_two_tats : History → Move
execute_tit_for_two_tats opponent =
    let n = length opponent in
    if ltb n 2
    then cooperate
    else if is_defect (get_or opponent (n - 2) cooperate)
        && is_defect (get_or opponent (n - 1) cooperate)
    then defect
    else cooperate

unfoldable pub execute_gradual : History → History → Move
execute_gradual opponent mine =
    let n = defections opponent in
    if ltb (defections mine) (n * (n + 1) / 2) then defect else cooperate

-- The generator is made for the one round, so its last state is not returned.
unfoldable pub execute_strategy : Strategy → History → History → SeededRng → Move
execute_strategy tit_for_tat opponent mine rng = execute_tit_for_tat opponent
execute_strategy always_defect opponent mine rng = defect
execute_strategy always_cooperate opponent mine rng = cooperate
execute_strategy grim_trigger opponent mine rng = execute_grim_trigger opponent
execute_strategy pavlov opponent mine rng = execute_pavlov opponent mine
execute_strategy suspicious_tit_for_tat opponent mine rng = execute_suspicious_tit_for_tat opponent
execute_strategy random opponent mine rng = execute_random rng
execute_strategy tit_for_two_tats opponent mine rng = execute_tit_for_two_tats opponent
execute_strategy gradual opponent mine rng = execute_gradual opponent mine

pub data PlayerStrategy : Type 0 where
  builtin : Strategy → PlayerStrategy
  custom : List ℕ → PlayerStrategy

unfoldable pub execute_player_strategy : PlayerStrategy → History → History → ℕ → SeededRng → Move
execute_player_strategy (builtin s) opponent mine round rng = execute_strategy s opponent mine rng
execute_player_strategy (custom bytecode) opponent mine round rng =
    execute_bytecode
      (record {
        bytecode = bytecode;
        opponent_history = opponent;
        my_history = mine;
        round = round;
      })
      rng
