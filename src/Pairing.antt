-- ===== src/Pairing.antt =====
-- crates/match-logic/src/pairing.rs: the pairing of the players for the matches of a tournament.
pub mod Counts
pub mod Roots
pub mod Feistel
pub mod Offsets
pub mod Pairs
pub mod Schedule
pub mod All
pub mod Meeting
use Counts.{calculate_match_count_inner}
use Feistel.{derive_feistel_keys, feistel_permute}
use Offsets.{select_offsets}
use Pairs.{canonical_to_pair_round_robin, canonical_to_pair_circular}
use prisoners_arena_program.Base.{
  ℕ, zero, suc, ◌+◌, ◌-◌, Option, none, some, List, [], ◌∷◌, ltb, leb, ◌==◌, if◌then◌else◌,
}

-- The pair of a canonical index, in the mode that `n` and `k` call for.
unfoldable pub canonical_to_pair : ℕ → ℕ → List ℕ → ℕ → ℕ × ℕ
canonical_to_pair n k seed canonical =
    if leb n (k + 1)
    then canonical_to_pair_round_robin canonical n
    else canonical_to_pair_circular canonical n (select_offsets n k seed)

-- `feistel_permute(..)?` and then the pair.
unfoldable pub pairing_at : ℕ → ℕ → List ℕ → ℕ → ℕ → Option (ℕ × ℕ)
pairing_at n k seed total index = elim (feistel_permute index total (derive_feistel_keys seed)) [
  | none ↦ none
  | some canonical ↦ some (canonical_to_pair n k seed canonical)
]

unfoldable pub get_pairing_for_match : ℕ → ℕ → List ℕ → ℕ → Option (ℕ × ℕ)
get_pairing_for_match n k seed match_index =
    let total = calculate_match_count_inner n k in
    if leb total match_index then none else pairing_at n k seed total match_index

-- `(0..total).filter_map(..)`; the first argument is the number of indexes left.
unfoldable pub pairings_from : ℕ → ℕ → ℕ → List ℕ → ℕ → ℕ → List (ℕ × ℕ)
pairings_from zero n k seed total index = []
pairings_from (suc left) n k seed total index =
    let rest = pairings_from left n k seed total (index + 1) in
    elim (pairing_at n k seed total index) [ none ↦ rest | some pair ↦ pair ∷ rest ]

unfoldable pub generate_all_pairings : ℕ → ℕ → List ℕ → List (ℕ × ℕ)
generate_all_pairings n k seed =
    let total = calculate_match_count_inner n k in
    if ltb n 2 then [] else if total == 0 then [] else pairings_from total n k seed total 0

-- The seed plays no part.
unfoldable pub calculate_match_count : ℕ → ℕ → List ℕ → ℕ
calculate_match_count participant_count matches_per_player seed =
    calculate_match_count_inner participant_count matches_per_player
