-- ===== src/Tests/Paying.antt =====
-- The theorems on the payout at a tournament of two players with one score.
use prisoners_arena_program.Base.{true, ◌≡◌, refl, arith, [], ◌∷◌, ok, inr}
use prisoners_arena_program.Base.Int.{pos, add_i64, wrap_i64, ltb_ℤ}
use prisoners_arena_program.Pairing.Counts.{effective_k}
use prisoners_arena_program.Arena.Ledger.{credit, debit, checked_sub}
use prisoners_arena_program.Arena.State.{new_tournament, payout, data_len}
use prisoners_arena_program.Arena.World.{
  World, find_entry, remove_entry, take_from_tournament, checked_u64,
}
use prisoners_arena_program.Arena.Lifecycle.{add_costs}
use prisoners_arena_program.Arena.Player.{share, claim_payout}
use prisoners_arena_program.Arena.Finalize.{
  NextTournament, finalize_tournament, add_final_costs, award, active_scores, count_from,
  winning_score, target_winners, sort_desc, insert_desc, house_fee, distributable, collect_fees,
  reimburse,
}
use prisoners_arena_program.Arena.Closing.{is_unpaid_winner}
use prisoners_arena_program.Arena.Session.{claims_payout, execute, execute_all}
use prisoners_arena_program.Arena.Sync.{IsSynced}
use prisoners_arena_program.Arena.Payout.Claims.{claim_payout-finalize_tournament}
use prisoners_arena_program.Arena.Store.{Stored, Store, finalizes, find_tournament, process}
use prisoners_arena_program.Arena.Store.Finishing.{process-finalizes-accepted}
use prisoners_arena_program.Tests.Reaching.{renting}
use prisoners_arena_program.Tests.Accounts.{config}
use prisoners_arena_program.Tests.Playing.{two_players, two_players-IsSound, entry_of}

-- The rent is a lamport for each byte. On top of it the account has 1963 of the pool of 2000: what
-- the entries of both players have left in it.
abbrev tied : World
tied = record (two_players 30 30 1) { tournament_lamports = 2236; wallets = (5, 7) ∷ (2, 360) ∷ [] }

tied-IsSynced : IsSynced tied.tournament tied.entries
unfolding effective_k new_tournament
tied-IsSynced = record { told = (refl, (refl, tt)); drawn = λ now. inr (15, refl) }

-- Both are winners.
abbrev shared : World
shared = record tied {
  config = record config { accumulated_fees = 140; current_tournament_id = 1 };
  config_lamports = 200;
  tournament = record (tied.tournament) {
    state = payout;
    operator_costs = 8;
    payout_started_at = pos 1000;
    min_winning_score = 30;
    winner_count = 2;
    winner_pool = 1892;
  };
  tournament_lamports = 2128;
  wallets = (5, 7) ∷ (2, 169) ∷ [];
}

abbrev following : NextTournament
following = record {
  tournament = new_tournament 1 1000 500 15 (pos 60) (pos 60) (pos 1060) 252;
  lamports = 199;
}

-- Player 5 has claimed.
abbrev claimed : World
claimed = record shared {
  tournament = record (shared.tournament) { claims_processed = 1; entries_remaining = 1 };
  tournament_lamports = 1182;
  entries = entry_of 6 1 30 ∷ [];
  wallets = (5, 1003) ∷ (2, 169) ∷ [];
}

claim_payout-finalize_tournament_example :
    (w' : World) × (claim_payout 6 (pos 1002) claimed ≡ ok w')
    × (w'.wallets ≡ credit 6 50 (credit 6 (share shared.tournament) claimed.wallets))
unfolding finalize_tournament add_final_costs add_costs award active_scores count_from winning_score
    target_winners sort_desc insert_desc house_fee distributable collect_fees reimburse
    take_from_tournament credit debit checked_sub checked_u64 data_len new_tournament execute_all
    execute claim_payout share find_entry remove_entry is_unpaid_winner add_i64 wrap_i64 ltb_ℤ
claim_payout-finalize_tournament_example =
    claim_payout-finalize_tournament renting 2 6 (pos 1000) (pos 1002) 252 tied shared claimed
      following (claims_payout 5 (pos 1001) ∷ []) {a = entry_of 6 1 30}
      (record { typed = omega arith; sound = two_players-IsSound 30 30 1 }) tied-IsSynced
      (omega arith) refl (tt, tt) refl refl refl refl

-- The tournament of two players with the id 0 is the only one.
abbrev alone : Stored
alone = record {
  tournament = tied.tournament;
  lamports = 2236;
  entries = tied.entries;
  is_open = true;
}

abbrev closing : Store
closing = record {
  config = tied.config;
  config_lamports = 100;
  tournaments = alone ∷ [];
  wallets = tied.wallets;
}

process-finalizes-accepted_example :
    (st' : Store) × (process renting (finalizes 0 2 (pos 1000) 252) closing ≡ ok st')
unfolding debit data_len new_tournament find_tournament
process-finalizes-accepted_example =
    process-finalizes-accepted renting 0 (pos 1000) 252 closing alone ((5, 7) ∷ (2, 161) ∷ []) refl
      refl (two_players-IsSound 30 30 1) refl (omega arith) refl (omega arith) (omega arith)
      (omega arith) (omega arith) (omega arith)
