-- ===== src/Tests/Storing.antt =====
-- The theorems on all the accounts at one or two tournaments.
use prisoners_arena_program.Base.{
  ℕ, ok, err, length, ◌*◌, ◌%◌, ◌^◌, ◌≡◌, refl, arith, some, get_elem?, true, List, [], ◌∷◌,
}
use prisoners_arena_program.Base.Int.{pos, add_i64, wrap_i64, ltb_ℤ}
use prisoners_arena_program.Arena.Ledger.{held, debit, credit, checked_sub}
use prisoners_arena_program.Arena.State.{new_tournament, reveal}
use prisoners_arena_program.Arena.World.{
  EntryAccount, find_entry, remove_entry, take_from_tournament, checked_u64, assign,
}
use prisoners_arena_program.Arena.Error.{Outcome}
use prisoners_arena_program.Arena.Lifecycle.{
  add_costs, close_reveal, even_out, refund_last, last_active, start_matches, skip_matches,
}
use prisoners_arena_program.Arena.Admin.{initialize_config}
use prisoners_arena_program.Arena.Player.{enter_tournament, open_entry, new_entry, add_player}
use prisoners_arena_program.Arena.Session.{execute, enters}
use prisoners_arena_program.Arena.Store.{
  Stored, Store, calls, refunds_from, process, process_all, initialize, find_tournament,
  write_tournament, store_lamports,
}
use prisoners_arena_program.Arena.Store.Lamports.{store_lamports-initialize-process_all}
use prisoners_arena_program.Arena.Store.Sound.{IsSoundStore, initialize-process_all-IsSoundStore}
use prisoners_arena_program.Arena.Store.Pooled.{pool-initialize-process_all}
use prisoners_arena_program.Arena.Store.Synced.{score-initialize-process_all}
use prisoners_arena_program.Tests.Accounts.{awarded, entry_of_five}
use prisoners_arena_program.Tests.Reaching.{renting, initial, initialized, joined}

abbrev set_up : Store
set_up = record {
  config = initialized;
  config_lamports = 141;
  tournaments =
      record {
        tournament = new_tournament 0 1000 0 15 (pos 60) (pos 60) (pos 100) 254;
        lamports = 199;
        entries = [];
        is_open = true;
      }
      ∷ [];
  wallets = (1, 660) ∷ (5, 9000) ∷ [];
}

-- Player 5 enters tournament 0.
abbrev entered_tournament : Stored
entered_tournament = record {
  tournament = record (new_tournament 0 1000 0 15 (pos 60) (pos 60) (pos 100) 254) {
    players = 5 ∷ [];
    scores = 0 ∷ [];
    strategies = 255 ∷ [];
    participant_count = 1;
    entries_remaining = 1;
    pool = 1000;
  };
  lamports = 1236;
  entries = joined.entries;
  is_open = true;
}

abbrev account_of_five : EntryAccount
account_of_five = record {
  entry = record (entry_of_five.entry) { commitment = 0 ∷ 9 ∷ []; score = 0; matches_played = 0 };
  lamports = 207;
}

abbrev entered_store : Store
entered_store = record set_up {
  tournaments = entered_tournament ∷ [];
  wallets = (1, 660) ∷ (5, 7756) ∷ [];
}

store_lamports-initialize-process_all_example :
    store_lamports entered_store ≡ held ((1, 1000) ∷ (5, 9000) ∷ [])
unfolding initialize initialize_config debit add_i64 wrap_i64 ltb_ℤ process_all process execute
    enter_tournament open_entry new_entry add_player find_entry find_tournament write_tournament
    new_tournament
store_lamports-initialize-process_all_example =
    store_lamports-initialize-process_all renting 1 initial (pos 40) 255 254
      ((1, 1000) ∷ (5, 9000) ∷ []) set_up entered_store
      (calls 0 (enters 5 (0 ∷ 9 ∷ []) (pos 1) 253) ∷ []) refl refl

initialize-process_all-IsSoundStore_example : IsSoundStore entered_store
unfolding initialize initialize_config debit add_i64 wrap_i64 ltb_ℤ process_all process execute
    enter_tournament open_entry new_entry add_player find_entry find_tournament write_tournament
    new_tournament
initialize-process_all-IsSoundStore_example =
    initialize-process_all-IsSoundStore renting 1 initial (pos 40) 255 254
      ((1, 1000) ∷ (5, 9000) ∷ []) set_up entered_store
      (calls 0 (enters 5 (0 ∷ 9 ∷ []) (pos 1) 253) ∷ []) (omega arith) refl (omega arith, tt) refl

score-initialize-process_all_example :
    get_elem? entered_tournament.tournament.scores account_of_five.entry.index
    ≡ some account_of_five.entry.score
unfolding initialize initialize_config debit add_i64 wrap_i64 ltb_ℤ process_all process execute
    enter_tournament open_entry new_entry add_player find_entry find_tournament write_tournament
    new_tournament
score-initialize-process_all_example =
    score-initialize-process_all renting 1 initial (pos 40) 255 254 ((1, 1000) ∷ (5, 9000) ∷ [])
      set_up entered_store (calls 0 (enters 5 (0 ∷ 9 ∷ []) (pos 1) 253) ∷ []) 0 5 entered_tournament
      account_of_five (omega arith) refl (omega arith, tt) refl refl refl

pool-initialize-process_all_example :
    entered_tournament.tournament.pool
    ≡ entered_tournament.tournament.stake * entered_tournament.tournament.participant_count % 2 ^ 64
unfolding initialize initialize_config debit add_i64 wrap_i64 ltb_ℤ process_all process execute
    enter_tournament open_entry new_entry add_player find_entry find_tournament write_tournament
    new_tournament
pool-initialize-process_all_example =
    pool-initialize-process_all renting 1 initial (pos 40) 255 254 ((1, 1000) ∷ (5, 9000) ∷ [])
      set_up entered_store (calls 0 (enters 5 (0 ∷ 9 ∷ []) (pos 1) 253) ∷ []) 0 entered_tournament
      (omega arith) refl (omega arith, tt) refl refl (omega arith)

-- Beside it there is tournament 1, which is paid out.
abbrev paying : Stored
paying = record {
  tournament = record (awarded.tournament) { id = 1 };
  lamports = 1046;
  entries = awarded.entries;
  is_open = true;
}

abbrev beside : List Stored → List Stored
beside [] = []
beside (s ∷ ss) = s ∷ paying ∷ ss

-- Player 5 is the only one of tournament 0, whose reveals are over, and has entered tournament 1 too.
abbrev revealed_tournament : Stored
revealed_tournament = record entered_tournament {
  tournament = record (entered_tournament.tournament) {
    state = reveal;
    strategies = 0 ∷ [];
    reveals_completed = 1;
    reveal_ends = pos 160;
  };
}

abbrev twice : Store
twice = record entered_store {
  tournaments =
      revealed_tournament
      ∷ record entered_tournament { tournament = record (entered_tournament.tournament) { id = 1 } }
      ∷ [];
}

counts : List Stored → List (ℕ × ℕ)
counts [] = []
counts (s ∷ ss) = (s.tournament.entries_remaining, length s.entries) ∷ counts ss

accepted_counts : Outcome Store → List (ℕ × ℕ)
accepted_counts (ok st) = counts st.tournaments
accepted_counts (err e) = []

-- The refund of tournament 0 is accepted with the entry of tournament 1: tournament 0 counts no entry
-- and has one, tournament 1 counts one and has none.
refund_of_other :
    accepted_counts (process renting (refunds_from 0 1 2 (pos 200) [] (some 5) (some 5)) twice)
    ≡ (0, 1) ∷ (1, 0) ∷ []
unfolding counts accepted_counts process execute close_reveal add_costs checked_u64 even_out
    refund_last last_active start_matches skip_matches take_from_tournament find_entry remove_entry
    find_tournament write_tournament credit checked_sub assign new_tournament
refund_of_other = refl
