-- ===== src/Bindings/Names.antt =====
-- crates/match-logic/src/wasm.rs and strategy.rs: the names of the strategies.
use Prim.Native.String.{String}
use text.Mathlib.Text.{◌==◌ as str_eq}
use prisoners_arena_program.Base.{
  ℕ, ◌≡◌, refl, Option, none, some, List, [], ◌∷◌, ok, ◌>>=◌, ok_or, get_elem?, if◌then◌else◌,
}
use prisoners_arena_program.Strategy.{
  Strategy, tit_for_tat, always_defect, always_cooperate, grim_trigger, pavlov,
  suspicious_tit_for_tat, random, tit_for_two_tats, gradual,
}
use prisoners_arena_program.Bindings.{Json, Js, invalid_strategy, unknown_strategy, serialization}

unfoldable pub describe_strategy : Strategy → String
describe_strategy tit_for_tat = "Copies opponent's last move. Starts by cooperating."
describe_strategy always_defect = "Never cooperates. Always defects."
describe_strategy always_cooperate = "Never defects. Always cooperates."
describe_strategy grim_trigger = "Cooperates until betrayed, then always defects."
describe_strategy pavlov = "Repeats move if outcome was good, switches if bad."
describe_strategy suspicious_tit_for_tat = "Like Tit-for-Tat, but starts with defect."
describe_strategy random = "Randomly cooperates or defects each round (50/50)."
describe_strategy tit_for_two_tats = "Only retaliates after two consecutive defections."
describe_strategy gradual = "Retaliates with increasing severity, then forgives."

unfoldable pub get_strategy_description : Json → String → Js String
get_strategy_description json text = do
  strategy ← ok_or (json.strategy_from text) invalid_strategy
  ok (describe_strategy strategy)

pub record StrategyInfo : Type 0 where
  pub id : String
  pub name : String
  pub description : String

-- The `types` of `get_strategy_types`.
abbrev pub get_strategy_types : List StrategyInfo
get_strategy_types =
    record {
      id = "TitForTat";
      name = "Tit for Tat";
      description = "Copies opponent's last move. Starts by cooperating.";
    }
    ∷ record {
      id = "AlwaysDefect";
      name = "Always Defect";
      description = "Never cooperates. Always defects.";
    }
    ∷ record {
      id = "AlwaysCooperate";
      name = "Always Cooperate";
      description = "Never defects. Always cooperates.";
    }
    ∷ record {
      id = "GrimTrigger";
      name = "Grim Trigger";
      description = "Cooperates until betrayed, then always defects.";
    }
    ∷ record {
      id = "Pavlov";
      name = "Pavlov";
      description = "Repeats move if outcome was good, switches if bad.";
    }
    ∷ record {
      id = "SuspiciousTitForTat";
      name = "Suspicious Tit for Tat";
      description = "Like Tit for Tat, but starts with defect.";
    }
    ∷ record {
      id = "Random";
      name = "Random";
      description = "Randomly cooperates or defects each round.";
    }
    ∷ record {
      id = "TitForTwoTats";
      name = "Tit for Two Tats";
      description = "Only retaliates after two consecutive defections.";
    }
    ∷ record {
      id = "Gradual";
      name = "Gradual";
      description = "Retaliates with increasing severity, then forgives.";
    }
    ∷ []

-- The `match base` of `create_strategy`.
unfoldable pub base_of : String → Option Strategy
base_of base =
    if str_eq base "TitForTat"
    then some tit_for_tat
    else if str_eq base "AlwaysDefect"
    then some always_defect
    else if str_eq base "AlwaysCooperate"
    then some always_cooperate
    else if str_eq base "GrimTrigger"
    then some grim_trigger
    else if str_eq base "Pavlov"
    then some pavlov
    else if str_eq base "SuspiciousTitForTat"
    then some suspicious_tit_for_tat
    else if str_eq base "Random"
    then some random
    else if str_eq base "TitForTwoTats"
    then some tit_for_two_tats
    else if str_eq base "Gradual"
    then some gradual
    else none

unfoldable pub create_strategy : Json → String → Js String
create_strategy json base = do
  strategy ← ok_or (base_of base) unknown_strategy
  ok_or (json.strategy_to strategy) serialization

-- Every strategy is listed by `get_strategy_types`, under an id that `create_strategy` takes for it.
pub get_strategy_types_complete :
    (json : Json) (s : Strategy)
    → (i : ℕ) × (info : StrategyInfo) × (get_elem? get_strategy_types i ≡ some info)
      × (create_strategy json info.id ≡ ok_or (json.strategy_to s) serialization)
unfolding create_strategy base_of
get_strategy_types_complete json tit_for_tat = (0, _, refl, refl)
get_strategy_types_complete json always_defect = (1, _, refl, refl)
get_strategy_types_complete json always_cooperate = (2, _, refl, refl)
get_strategy_types_complete json grim_trigger = (3, _, refl, refl)
get_strategy_types_complete json pavlov = (4, _, refl, refl)
get_strategy_types_complete json suspicious_tit_for_tat = (5, _, refl, refl)
get_strategy_types_complete json random = (6, _, refl, refl)
get_strategy_types_complete json tit_for_two_tats = (7, _, refl, refl)
get_strategy_types_complete json gradual = (8, _, refl, refl)
