-- ===== src/Tests/Serving.antt =====
-- The theorems on the pairings and what the browser calls.
use prisoners_arena_program.Base.{
  ℕ, get_or, min, max, ◌<◌, ◌%◌, ◌+◌, ◌≡◌, ◌↔◌, refl, arith, some, none, List, [], ◌∷◌, ok, ok_or,
  length, get_elem?, replicate,
}
use prisoners_arena_program.Pairing.{
  get_pairing_for_match, generate_all_pairings, calculate_match_count,
}
use prisoners_arena_program.Pairing.Counts.{effective_k, available}
use prisoners_arena_program.Pairing.All.{generate_all_pairings_lem}
use prisoners_arena_program.Pairing.Offsets.{offset_count, select_offsets}
use prisoners_arena_program.Pairing.Offsets.Laws.{select_offsets_lem}
use prisoners_arena_program.Pairing.Meeting.{round_robin_meets, circular_meets}
use prisoners_arena_program.Strategy.{pavlov}
use prisoners_arena_program.Bindings.{
  Json, get_tournament_pairings_filtered, get_matchmaking_stats, serialization,
}
use prisoners_arena_program.Bindings.Names.{
  StrategyInfo, get_strategy_types, create_strategy, get_strategy_types_complete,
}
use prisoners_arena_program.Bindings.Pairings.{
  IsUnrefunded, Listed, get_tournament_pairings_filtered_iff,
}
use prisoners_arena_program.Bindings.Stats.{left_out, total_matches-short}

abbrev seed : List ℕ
seed = replicate 32 7

generate_all_pairings_lem_example :
    (length (generate_all_pairings 300 (effective_k 300 99) seed)
      ≡ calculate_match_count 300 (effective_k 300 99) seed)
    × ((i : ℕ)
        → get_elem? (generate_all_pairings 300 (effective_k 300 99) seed) i
          ≡ get_pairing_for_match 300 (effective_k 300 99) seed i)
generate_all_pairings_lem_example =
    generate_all_pairings_lem 300 99 seed (omega arith) (omega arith)

total_matches-short_example :
    (get_matchmaking_stats 300 15).total_matches + left_out 300 (effective_k 300 15)
    ≡ calculate_match_count 300 (effective_k 300 15) seed
total_matches-short_example = total_matches-short 300 15 seed (omega arith) (omega arith)

-- The same in numbers: 7350 matches are told, and 7500 are played.
told : (get_matchmaking_stats 300 15).total_matches ≡ 7350
unfolding get_matchmaking_stats effective_k
told = refl

get_tournament_pairings_filtered_iff_example :
    (pairs : List (ℕ × ℕ)) × (get_tournament_pairings_filtered 3
        (effective_k 3 15)
        seed
        (0 ∷ 255 ∷ 4 ∷ [])
      ≡ ok pairs)
    × ((a b : ℕ)
        → Listed (a, b) pairs ↔ (
            ((i : ℕ) × (get_pairing_for_match 3 (effective_k 3 15) seed i ≡ some (a, b)))
            × IsUnrefunded (0 ∷ 255 ∷ 4 ∷ []) a
            × IsUnrefunded (0 ∷ 255 ∷ 4 ∷ []) b))
get_tournament_pairings_filtered_iff_example =
    get_tournament_pairings_filtered_iff 3 15 seed (0 ∷ 255 ∷ 4 ∷ []) (omega arith) (omega arith)
      refl

-- Texts that are not read, and one that is written.
abbrev json : Json
json = record {
  player_strategy_from = λ text. none;
  strategy_from = λ text. none;
  strategy_to = λ s. some "{}";
}

get_strategy_types_complete_example :
    (i : ℕ) × (info : StrategyInfo) × (get_elem? get_strategy_types i ≡ some info)
    × (create_strategy json info.id ≡ ok_or (json.strategy_to pavlov) serialization)
get_strategy_types_complete_example = get_strategy_types_complete json pavlov

round_robin_meets_example :
    (i : ℕ) × (i < calculate_match_count 7 (effective_k 7 15) seed)
    × (get_pairing_for_match 7 (effective_k 7 15) seed i ≡ some (2, 5))
round_robin_meets_example =
    round_robin_meets 7 15 seed 2 5 (omega arith) (omega arith) (omega arith)

third_of_25 : 3 < length (select_offsets 300 (effective_k 300 15) seed)
unfolding offset_count effective_k available
third_of_25 =
    let (_, _, count) = select_offsets_lem 300 (effective_k 300 15) seed in omega (arith, count)

circular_meets_example :
    let q = (7 + get_or (select_offsets 300 (effective_k 300 15) seed) 3 0) % 300 in
    (i : ℕ) × (i < calculate_match_count 300 (effective_k 300 15) seed)
    × (get_pairing_for_match 300 (effective_k 300 15) seed i ≡ some (min 7 q, max 7 q))
circular_meets_example =
    circular_meets 300 15 seed 7 3 (omega arith) (omega arith) (omega arith) third_of_25
