-- ===== src/Tests/Playing.antt =====
-- The theorems on the matches at a tournament of two players.
use prisoners_arena_program.Base.{
  ℕ, ◌+◌, ◌≤◌, ◌<◌, ◌≡◌, refl, arith, true, List, [], ◌∷◌, ok, length, get_elem?,
}
use prisoners_arena_program.Base.Int.{pos}
use prisoners_arena_program.Pairing.{get_pairing_for_match, pairing_at, canonical_to_pair}
use prisoners_arena_program.Pairing.Pairs.{canonical_to_pair_round_robin, unrank_pair, lower, raise}
use prisoners_arena_program.Pairing.Roots.{isqrt_ceil, newton}
use prisoners_arena_program.Random.{new_rng, next_u64, next_u32}
use prisoners_arena_program.Pairing.Feistel.{
  feistel_permute, walk, feistel_pass, feistel_rounds, mix, feistel_round_fn, derive_feistel_keys,
}
use prisoners_arena_program.Pairing.Counts.{effective_k, calculate_match_count_inner, div_ceil}
use prisoners_arena_program.Arena.Ledger.{credit, checked_sub}
use prisoners_arena_program.Arena.State.{Pubkey, new_tournament, running, payout, data_len}
use prisoners_arena_program.Arena.World.{
  World, EntryAccount, find_entry, take_from_tournament, checked_u64,
}
use prisoners_arena_program.Arena.Admin.{withdraw_fees}
use prisoners_arena_program.Arena.Finalize.{
  award, active_scores, count_from, winning_score, target_winners, sort_desc, insert_desc,
  house_fee, distributable, collect_fees, reimburse,
}
use prisoners_arena_program.Arena.Running.{run_matches, run_batch, run_one, all_revealed}
use prisoners_arena_program.Arena.Session.{execute, withdraws}
use prisoners_arena_program.Arena.Sound.{IsSound}
use prisoners_arena_program.Arena.Sound.Reach.{here, next, runs_one, all_revealed-Reach}
use prisoners_arena_program.Arena.Winners.{winner_count-award}
use prisoners_arena_program.Arena.Progress.Unpaired.{run_matches-unpaired}
use prisoners_arena_program.Arena.Lifecycle.{add_costs}
use prisoners_arena_program.Tests.Accounts.{runtime, config, entry_of_five, world}

-- The entry of a player, with a score.
abbrev pub entry_of : Pubkey → ℕ → ℕ → EntryAccount
entry_of player i s = record {
  entry = record (entry_of_five.entry) { player = player; index = i; revealed = true; score = s };
  lamports = 50;
}

-- Two players with strategies, and one match between them, which is played or not: their scores, and
-- the number of matches completed.
abbrev pub two_players : ℕ → ℕ → ℕ → World
two_players a b completed = record world {
  tournament = record (new_tournament 0 1000 500 15 (pos 60) (pos 60) (pos 100) 254) {
    state = running;
    players = 5 ∷ 6 ∷ [];
    scores = a ∷ b ∷ [];
    strategies = 0 ∷ 1 ∷ [];
    participant_count = 2;
    entries_remaining = 2;
    reveals_completed = 2;
    matches_per_player = 1;
    matches_total = 1;
    matches_completed = completed;
    operator_costs = 4;
    pool = 2000;
  };
  tournament_lamports = 2100;
  entries = entry_of 5 0 a ∷ entry_of 6 1 b ∷ [];
}

pub two_players-IsSound :
    (a b completed : ℕ)
    → IsSound (two_players a b completed).tournament (two_players a b completed).entries
unfolding find_entry new_tournament
two_players-IsSound a b completed = record {
  scores = refl;
  strategies = refl;
  few = omega arith;
  counted = refl;
  entered = refl;
  seated = (
    record { seat = refl; keyed = omega arith; sealed = λ e. cc },
    refl,
    (record { seat = refl; keyed = omega arith; sealed = λ e. cc }, refl, tt),
  );
  opened = λ e. refl;
  hidden = λ e. cc;
  tallied = refl;
  complete = λ e. refl;
}

abbrev paired : World
paired = two_players 30 20 1

-- The admin withdraws the fees meanwhile.
abbrev withdrawn : World
withdrawn = record paired {
  config = record config { accumulated_fees = 0 };
  config_lamports = 60;
  wallets = (5, 7) ∷ (2, 60) ∷ (1, 40) ∷ [];
}

all_revealed-Reach_example :
    all_revealed withdrawn.tournament.players withdrawn.tournament.strategies ≡ ok tt
unfolding execute withdraw_fees credit checked_sub new_tournament
all_revealed-Reach_example =
    all_revealed-Reach runtime paired withdrawn
      (record { typed = omega arith; sound = two_players-IsSound 30 20 1 })
      (next here (runs_one (withdraws 1) tt refl)) refl

abbrev prized : World
prized = record paired {
  config = record config { accumulated_fees = 140 };
  config_lamports = 200;
  tournament = record (paired.tournament) {
    state = payout;
    payout_started_at = pos 1000;
    min_winning_score = 30;
    winner_count = 1;
    winner_pool = 1896;
  };
  tournament_lamports = 1996;
  wallets = (5, 7) ∷ (2, 64) ∷ [];
}

winner_count-award_example :
    (scores : List ℕ) × (active_scores paired.tournament.players paired.tournament.scores
      ≡ ok scores)
    × (length scores ≡ paired.tournament.participant_count)
    × (prized.tournament.winner_count ≡ count_from prized.tournament.min_winning_score scores)
    × (div_ceil paired.tournament.participant_count 4 ≤ prized.tournament.winner_count)
    × (count_from (prized.tournament.min_winning_score + 1) scores
        < div_ceil paired.tournament.participant_count 4)
unfolding award active_scores count_from winning_score target_winners sort_desc insert_desc
    house_fee distributable collect_fees reimburse take_from_tournament credit checked_sub
    checked_u64 data_len new_tournament
winner_count-award_example =
    winner_count-award runtime 2 (pos 1000) paired prized (two_players-IsSound 30 20 1)
      (omega arith) refl

-- The first of three players has been refunded, so that the only match has an empty slot.
abbrev vacated : World
vacated = record world {
  tournament = record (new_tournament 0 1000 500 15 (pos 60) (pos 60) (pos 100) 254) {
    state = running;
    players = 0 ∷ 5 ∷ 6 ∷ [];
    scores = 0 ∷ 0 ∷ 7 ∷ [];
    strategies = 255 ∷ 0 ∷ 1 ∷ [];
    participant_count = 2;
    entries_remaining = 2;
    reveals_completed = 2;
    matches_per_player = 1;
    matches_total = 1;
    pool = 2000;
  };
}

abbrev skipped : World
skipped = record vacated {
  tournament = record (vacated.tournament) { matches_completed = 1; operator_costs = 1 };
}

run_matches-unpaired_example :
    get_elem? skipped.tournament.scores 2 ≡ get_elem? vacated.tournament.scores 2
unfolding run_matches add_costs checked_u64 all_revealed run_batch run_one get_pairing_for_match
    pairing_at canonical_to_pair canonical_to_pair_round_robin unrank_pair lower raise
    feistel_permute walk feistel_pass feistel_rounds mix feistel_round_fn derive_feistel_keys
    isqrt_ceil newton calculate_match_count_inner effective_k new_tournament new_rng next_u64
    next_u32
run_matches-unpaired_example =
    run_matches-unpaired 2 [] 15 2 vacated skipped (omega arith) refl (omega arith) refl
