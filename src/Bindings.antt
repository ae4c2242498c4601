-- ===== src/Bindings.antt =====
-- crates/match-logic/src/wasm.rs: what the browser calls to replay a tournament. A function that
-- serializes its result returns the result here.
pub mod Names
pub mod Pairings
pub mod Stats
use Prim.Native.String.{String}
use prisoners_arena_program.Base.{
  ℕ, ◌+◌, ◌*◌, ◌/◌, ◌%◌, ◌^◌, Bool, true, false, not, ◌&&◌, Option, none, some, List, [], ◌∷◌,
  Result, ok, err, ◌>>=◌, ◌>>◌, require, ok_or, length, get_elem?, leb, ◌==◌, if◌then◌else◌,
}
use prisoners_arena_program.Vm.Validate.{BytecodeError, validate_bytecode}
use prisoners_arena_program.Strategy.{Strategy, PlayerStrategy, builtin}
use prisoners_arena_program.Game.{MatchResult, RoundConfig, standard, compressed, run_match}
use prisoners_arena_program.Pairing.{
  get_pairing_for_match, generate_all_pairings, calculate_match_count,
}
use prisoners_arena_program.Pairing.Counts.{effective_k}

-- The messages of a `JsError`.
pub data JsError : Type 0 where
  invalid_strategy invalid_strategy_a invalid_strategy_b seed_length unknown_strategy : JsError
  serialization : JsError

abbrev pub Js : Type 0 → Type 0
Js A = Result JsError A

-- `serde_json` at the types that are parsed.
pub record Json : Type 0 where
  pub player_strategy_from : String → Option PlayerStrategy
  pub strategy_from : String → Option Strategy
  pub strategy_to : Strategy → Option String

unfoldable pub parse_player_strategy : Json → String → JsError → Js PlayerStrategy
parse_player_strategy json text e = elim (json.player_strategy_from text) [
  | some ps ↦ ok ps
  | none ↦ (do s ← ok_or (json.strategy_from text) e; ok (builtin s))
]

-- `seed.try_into()`
unfoldable pub seed_array : List ℕ → Js (List ℕ)
seed_array seed = if length seed == 32 then ok seed else err seed_length

unfoldable pub replay_match : Json → String → String → List ℕ → ℕ → ℕ → Js MatchResult
replay_match json a b seed match_index participant_count = do
  strategy_a ← parse_player_strategy json a invalid_strategy_a
  strategy_b ← parse_player_strategy json b invalid_strategy_b
  seed_arr ← seed_array seed
  ok (run_match strategy_a strategy_b seed_arr match_index participant_count)

unfoldable pub get_tournament_pairings : ℕ → ℕ → List ℕ → Js (List (ℕ × ℕ))
get_tournament_pairings participant_count opponents_per_agent seed = do
  seed_arr ← seed_array seed
  ok (generate_all_pairings participant_count opponents_per_agent seed_arr)

-- `strategies.get(i).map_or(false, |s| *s != u8::MAX)`
unfoldable pub is_playing : List ℕ → ℕ → Bool
is_playing strategies i = elim (get_elem? strategies i) [ none ↦ false | some s ↦ not (s == 255) ]

-- `.into_iter().filter(..).collect()`
unfoldable pub playing_pairs : List ℕ → List (ℕ × ℕ) → List (ℕ × ℕ)
playing_pairs strategies [] = []
playing_pairs strategies ((a, b) ∷ pairs) =
    let rest = playing_pairs strategies pairs in
    if is_playing strategies a && is_playing strategies b then (a, b) ∷ rest else rest

unfoldable pub get_tournament_pairings_filtered : ℕ → ℕ → List ℕ → List ℕ → Js (List (ℕ × ℕ))
get_tournament_pairings_filtered participant_count opponents_per_agent seed strategies = do
  seed_arr ← seed_array seed
  ok (
      playing_pairs strategies
        (generate_all_pairings participant_count opponents_per_agent seed_arr))

unfoldable pub get_match_pairing : ℕ → ℕ → List ℕ → ℕ → Js (Option (ℕ × ℕ))
get_match_pairing participant_count opponents_per_agent seed match_index = do
  seed_arr ← seed_array seed
  ok (get_pairing_for_match participant_count opponents_per_agent seed_arr match_index)

-- The error stands for its text.
pub record ValidationResult : Type 0 where
  pub valid : Bool
  pub error : Option BytecodeError

unfoldable pub validate_custom_bytecode : List ℕ → ValidationResult
validate_custom_bytecode bytecode = elim (validate_bytecode bytecode) [
  | ok u ↦ record { valid = true; error = none }
  | err e ↦ record { valid = false; error = some e }
]

unfoldable pub get_match_count : ℕ → ℕ → List ℕ → Js ℕ
get_match_count participant_count opponents_per_agent seed = do
  seed_arr ← seed_array seed
  ok (calculate_match_count participant_count opponents_per_agent seed_arr)

abbrev pub get_effective_k : ℕ → ℕ → ℕ
get_effective_k participant_count config_k = effective_k participant_count config_k

-- Without `avg_rounds`, a floating-point number.
pub record MatchmakingStats : Type 0 where
  pub effective_k : ℕ
  pub tier : String
  pub min_rounds : ℕ
  pub max_rounds : ℕ
  pub end_probability : ℕ
  pub total_matches : ℕ

-- The tier and the rounds of a tournament.
unfoldable pub tier_of : ℕ → String × RoundConfig
tier_of participant_count =
    if leb participant_count 1000 then ("Standard", standard) else ("Compressed", compressed)

unfoldable pub get_matchmaking_stats : ℕ → ℕ → MatchmakingStats
get_matchmaking_stats participant_count config_k =
    let k = effective_k participant_count config_k in
    let (tier, config) = tier_of participant_count in
    record {
      effective_k = k;
      tier = tier;
      min_rounds = config.min_rounds;
      max_rounds = config.max_rounds;
      end_probability = config.end_probability;
      total_matches = participant_count * k % 2 ^ 32 / 2;
    }
