-- ===== src/Tests/Opening.antt =====
-- The way into the matches at a tournament of two players.
use prisoners_arena_program.Base.{
  ℕ, zero, suc, ◌≡◌, refl, arith, Bool, true, false, some, none, [], ◌∷◌, ok, replicate, get_elem?,
}
use prisoners_arena_program.Base.Int.{pos}
use prisoners_arena_program.Pairing.{calculate_match_count}
use prisoners_arena_program.Pairing.Counts.{effective_k, calculate_match_count_inner}
use prisoners_arena_program.Arena.State.{
  Pubkey, Strategy, strategy_index, new_tournament, reveal, running,
}
use prisoners_arena_program.Arena.World.{World, EntryAccount, find_entry, write_entry, checked_u64}
use prisoners_arena_program.Arena.Player.{reveal_strategy, check_commitment, preimage, same_bytes}
use prisoners_arena_program.Arena.Lifecycle.{
  close_reveal, add_costs, even_out, start_matches, draw_matches, mix_id,
}
use prisoners_arena_program.Arena.Running.{is_passed}
use prisoners_arena_program.Arena.Session.{execute, execute_all, reveals}
use prisoners_arena_program.Arena.Sound.{IsSound}
use prisoners_arena_program.Arena.Progress.{IsPlaying}
use prisoners_arena_program.Arena.Progress.Batch.{crank}
use prisoners_arena_program.Arena.Opening.{IsUnplayed}
use prisoners_arena_program.Arena.Opening.Drawing.{matches_completed-close_reveal}
use prisoners_arena_program.Tests.Accounts.{entry_of_five, world}
use prisoners_arena_program.Tests.Reaching.{renting}

-- An entry that is revealed or not.
abbrev seat : Pubkey → ℕ → Bool → EntryAccount
seat player i is_open = record {
  entry = record (entry_of_five.entry) {
    player = player;
    index = i;
    commitment = 0 ∷ 9 ∷ [];
    revealed = is_open;
    score = 0;
  };
  lamports = 207;
}

-- Two players in the reveal phase. The first has revealed a strategy, the second has that strategy.
abbrev revealing_two : ℕ → ℕ → Bool → World
revealing_two strategy revealed is_open = record world {
  tournament = record (new_tournament 0 1000 500 15 (pos 60) (pos 60) (pos 100) 254) {
    state = reveal;
    reveal_ends = pos 160;
    players = 5 ∷ 6 ∷ [];
    scores = 0 ∷ 0 ∷ [];
    strategies = 0 ∷ strategy ∷ [];
    participant_count = 2;
    entries_remaining = 2;
    reveals_completed = revealed;
    pool = 2000;
  };
  tournament_lamports = 2100;
  entries = seat 5 0 true ∷ seat 6 1 is_open ∷ [];
}

revealing_two-IsSound :
    IsSound (revealing_two 255 1 false).tournament (revealing_two 255 1 false).entries
unfolding find_entry new_tournament
revealing_two-IsSound = record {
  scores = refl;
  strategies = refl;
  few = omega arith;
  counted = refl;
  entered = refl;
  seated = (
    record { seat = refl; keyed = omega arith; sealed = λ e. cc },
    refl,
    (record { seat = refl; keyed = omega arith; sealed = λ e. refl }, refl, tt),
  );
  opened = λ e. refl;
  hidden = λ e. cc;
  tallied = refl;
  complete = λ e. cc;
}

revealing_two-IsUnplayed : IsUnplayed (revealing_two 255 1 false)
unfolding new_tournament
revealing_two-IsUnplayed = record {
  completed = refl;
  scores = (omega arith, (omega arith, tt));
  playable = (
    record { low = omega arith; fits = omega arith },
    (record { low = omega arith; fits = omega arith }, tt),
  );
}

-- The operator draws the one match.
abbrev drawn : World
drawn = record (revealing_two 0 2 true) {
  tournament = record ((revealing_two 0 2 true).tournament) {
    state = running;
    randomness_seed = replicate 32 7;
    matches_per_player = 1;
    matches_total = 1;
    operator_costs = 1;
  };
}

all_passed : (i p : ℕ) → get_elem? (5 ∷ 6 ∷ []) i ≡ some p → is_passed p (6 ∷ 5 ∷ []) ≡ true
all_passed zero p e = grind arith
all_passed (suc zero) p e = grind arith
all_passed (suc (suc i)) p e = cc

matches_completed-close_reveal_example :
    (w' : World) × (crank 1 drawn.config.operator (6 ∷ 5 ∷ []) drawn ≡ ok w')
    × IsPlaying w'
    × (w'.tournament.matches_completed ≡ drawn.tournament.matches_total)
    × (w'.tournament.matches_total ≡ drawn.tournament.matches_total)
unfolding execute_all execute reveal_strategy check_commitment preimage same_bytes strategy_index
    find_entry write_entry close_reveal add_costs checked_u64 even_out start_matches draw_matches
    mix_id effective_k calculate_match_count calculate_match_count_inner new_tournament
matches_completed-close_reveal_example =
    matches_completed-close_reveal renting
      (reveals 6 Strategy.tit_for_tat (9 ∷ []) none (pos 120) ∷ []) 2 (pos 200) (replicate 48 7)
      none none (revealing_two 255 1 false) (revealing_two 0 2 true) drawn 1 (6 ∷ 5 ∷ [])
      (record { typed = omega arith; sound = revealing_two-IsSound }) revealing_two-IsUnplayed
      (tt, tt) refl refl (omega arith) (omega arith) (λ i p e h. all_passed i p e) (omega arith)
      (omega arith)
