-- ===== src/Tests.antt =====
-- The theorems at concrete inputs: a seed, byte programs, short matches and small tournaments.
mod Accounts
mod Reaching
mod Playing
mod Paying
mod Opening
mod Storing
mod Serving
use prisoners_arena_program.Base.{
  ℕ, ◌+◌, ◌≤◌, ◌<◌, ◌≡◌, ◌↔◌, refl, arith, some, List, [], ◌∷◌, ok, replicate, length, leb,
  if◌then◌else◌,
}
use prisoners_arena_program.Random.{SeededRng, new_rng}
use prisoners_arena_program.Moves.{cooperate, defect}
use prisoners_arena_program.Vm.{Machine, Input, execute_inner, start, turn, step, push, push_next}
use prisoners_arena_program.Vm.Fuel.{Runs, execute_inner-iff-Runs}
use prisoners_arena_program.Vm.Opcode.{decode}
use prisoners_arena_program.Vm.Safety.{IsValid, begins, moves, Visits-IsValid}
use prisoners_arena_program.Vm.Validate.{validate_bytecode}
use prisoners_arena_program.Vm.Listing.{IsProgram, validate_bytecode_iff}
use prisoners_arena_program.Strategy.{
  custom, builtin, grim_trigger, pavlov, tit_for_tat, execute_player_strategy,
}
use prisoners_arena_program.Strategy.Codes.{
  code_for, grim_trigger_code, tit_for_tat_code, pavlov_test_code,
}
use prisoners_arena_program.Strategy.Parity.{custom-eq-builtin, pavlov_test_code-ne-pavlov}
use prisoners_arena_program.Game.{run_match}
use prisoners_arena_program.Game.Rounds.{run_match_round_count}
use prisoners_arena_program.Game.Tally.{Follows, match_rng, sum_of, run_match-Follows}
use prisoners_arena_program.Game.Parity.{run_match-custom-eq-builtin}
use prisoners_arena_program.Pairing.{calculate_match_count, get_pairing_for_match}
use prisoners_arena_program.Pairing.Counts.{effective_k, calculate_match_count_inner, available}
use prisoners_arena_program.Pairing.Roots.{isqrt_ceil}
use prisoners_arena_program.Pairing.Roots.Laws.{IsCeil, isqrt_ceil-IsCeil}
use prisoners_arena_program.Pairing.Feistel.{feistel_permute}
use prisoners_arena_program.Pairing.Feistel.Network.{feistel_pass_injective}
use prisoners_arena_program.Pairing.Feistel.Permutation.{
  feistel_permute_total, feistel_permute_injective,
}
use prisoners_arena_program.Pairing.Offsets.{select_offsets, offset_count}
use prisoners_arena_program.Pairing.Offsets.Laws.{AllBelow, Distinct, select_offsets_lem}
use prisoners_arena_program.Pairing.Pairs.{unrank_pair}
use prisoners_arena_program.Pairing.Pairs.Unrank.{triangle, unrank_pair_lem}
use prisoners_arena_program.Pairing.Schedule.{
  get_pairing_for_match_total, get_pairing_for_match_injective,
}

abbrev seed : List ℕ
seed = replicate 32 7

abbrev rng : SeededRng
rng = new_rng seed 1

abbrev five : ℕ
five = 5

-- `PUSH 5; RETURN` in the first round
abbrev short_program : Input
short_program = record {
  bytecode = 0x01 ∷ 5 ∷ 0x18 ∷ [];
  opponent_history = [];
  my_history = [];
  round = 0;
}

abbrev after_push : Machine
after_push = record { stack = 5 ∷ replicate 7 0; sp = 1; pc = 2; rng = rng }

get_pairing_for_match_injective_example : five ≡ five
unfolding calculate_match_count calculate_match_count_inner effective_k
get_pairing_for_match_injective_example =
    get_pairing_for_match_injective 4 50 seed five five (omega arith) (omega arith) (omega arith)
      (omega arith) refl

get_pairing_for_match_total_example :
    (a b : ℕ) × (get_pairing_for_match 4 (effective_k 4 50) seed 5 ≡ some (a, b))
    × (a < b)
    × (b < 4)
unfolding calculate_match_count calculate_match_count_inner
get_pairing_for_match_total_example =
    get_pairing_for_match_total 4 50 seed 5 (omega arith) (omega arith)
      (unfold effective_k in omega arith)

execute_inner-iff-Runs_example :
    (execute_inner short_program rng ≡ some defect) ↔ Runs short_program (start rng) (some defect)
execute_inner-iff-Runs_example =
    execute_inner-iff-Runs short_program rng (omega arith) (some defect)

validate_bytecode_iff_example :
    (validate_bytecode pavlov_test_code ≡ ok tt) ↔ IsProgram pavlov_test_code
validate_bytecode_iff_example = validate_bytecode_iff pavlov_test_code

feistel_permute_total_example :
    (z : ℕ) × (feistel_permute 9 10 (3 ∷ 1 ∷ 4 ∷ 1 ∷ 5 ∷ 9 ∷ []) ≡ some z) × (z < 10)
feistel_permute_total_example =
    feistel_permute_total 9 10 (3 ∷ 1 ∷ 4 ∷ 1 ∷ 5 ∷ 9 ∷ []) (omega arith) (omega arith)

feistel_pass_injective_example : five ≡ five
feistel_pass_injective_example =
    feistel_pass_injective 4 (3 ∷ 1 ∷ 4 ∷ 1 ∷ 5 ∷ 9 ∷ []) five five (omega arith) (omega arith)
      (omega arith) refl

run_match-Follows_example :
    let m = run_match (builtin tit_for_tat) (custom pavlov_test_code) seed 3 8 in
    (length m.rounds ≡ m.round_count)
    × Follows
        (builtin tit_for_tat)
        (custom pavlov_test_code)
        (match_rng seed 3 8)
        []
        []
        0
        0
        0
        m.rounds
    × (m.total_score_a ≡ sum_of (λ r. r.score_a) m.rounds)
    × (m.total_score_b ≡ sum_of (λ r. r.score_b) m.rounds)
run_match-Follows_example =
    run_match-Follows (builtin tit_for_tat) (custom pavlov_test_code) seed 3 8

run_match-custom-eq-builtin_example :
    run_match (custom grim_trigger_code) (custom tit_for_tat_code) seed 3 8
    ≡ run_match (builtin grim_trigger) (builtin tit_for_tat) seed 3 8
unfolding code_for
run_match-custom-eq-builtin_example =
    run_match-custom-eq-builtin grim_trigger tit_for_tat seed 3 8 refl refl

custom-eq-builtin_example :
    execute_player_strategy (custom grim_trigger_code) (defect ∷ []) (cooperate ∷ []) 1 rng
    ≡ execute_player_strategy (builtin grim_trigger) (defect ∷ []) (cooperate ∷ []) 1 rng
unfolding code_for
custom-eq-builtin_example =
    custom-eq-builtin grim_trigger (defect ∷ []) (cooperate ∷ []) rng refl refl

pavlov_test_code-ne-pavlov_example :
    (execute_player_strategy (custom pavlov_test_code) (defect ∷ []) (cooperate ∷ []) 1 rng
      ≡ cooperate)
    × (execute_player_strategy (builtin pavlov) (defect ∷ []) (cooperate ∷ []) 1 rng ≡ defect)
pavlov_test_code-ne-pavlov_example =
    pavlov_test_code-ne-pavlov (defect ∷ []) (cooperate ∷ []) rng refl refl refl

Visits-IsValid_example : IsValid after_push
unfolding turn decode step push_next push
Visits-IsValid_example =
    Visits-IsValid short_program rng (omega arith, (omega arith, (omega arith, tt))) (omega arith)
      (moves begins refl)

unrank_pair_lem_example : let (a, b) = unrank_pair 5 in (a < b) × (b < 4) × (triangle b + a ≡ 5)
unrank_pair_lem_example = unrank_pair_lem 4 5 (omega arith) (unfold triangle in omega arith)

select_offsets_lem_example :
    AllBelow (available 300 + 1) (select_offsets 300 49 seed)
    × Distinct (select_offsets 300 49 seed)
    × (length (select_offsets 300 49 seed) ≡ offset_count 300 49)
select_offsets_lem_example = select_offsets_lem 300 49 seed

isqrt_ceil-IsCeil-example : IsCeil 7350 (isqrt_ceil 7350)
isqrt_ceil-IsCeil-example = isqrt_ceil-IsCeil 7350 (omega arith)

run_match_round_count_example :
    ((if leb 1200 1000 then 20 else 10)
      ≤ (run_match (builtin tit_for_tat) (builtin pavlov) seed 3 1200).round_count)
    × ((run_match (builtin tit_for_tat) (builtin pavlov) seed 3 1200).round_count
        ≤ (if leb 1200 1000 then 50 else 30))
run_match_round_count_example =
    run_match_round_count (builtin tit_for_tat) (builtin pavlov) seed 3 1200

feistel_permute_injective_example : five ≡ five
feistel_permute_injective_example =
    let keys : List ℕ = 3 ∷ 1 ∷ 4 ∷ 1 ∷ 5 ∷ 9 ∷ [] in
    let found = feistel_permute_total five 10 keys (omega arith) (omega arith) in
    feistel_permute_injective five five 10 found.0 keys (omega arith) (omega arith) (omega arith)
      found.1 found.1
