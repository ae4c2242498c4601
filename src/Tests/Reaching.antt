-- ===== src/Tests/Reaching.antt =====
-- The theorems on the course of a tournament at one of two players.
use prisoners_arena_program.Base.{
  ℕ, ◌%◌, List, ◌+◌, ◌-◌, ◌≤◌, ◌≡◌, refl, arith, true, some, none, [], ◌∷◌, err,
}
use prisoners_arena_program.Base.Int.{pos}
use prisoners_arena_program.Arena.Error.{ArenaError, unauthorized}
use prisoners_arena_program.Arena.Ledger.{credit, debit, checked_sub}
use prisoners_arena_program.Arena.State.{
  Strategy, strategy_index, new_tournament, reveal, running, payout, data_len,
}
use prisoners_arena_program.Arena.World.{
  Runtime, World, find_entry, write_entry, spare, take_from_tournament, checked_u64,
}
use prisoners_arena_program.Arena.Admin.{
  InitializeConfigParams, UpdateConfigParams, initialize_config, update_config, update_terms,
  update_schedule,
}
use prisoners_arena_program.Arena.Settings.{IsConfigured, update_all, initialize_config-update_all}
use prisoners_arena_program.Base.Int.{add_i64, wrap_i64, ltb_ℤ}
use prisoners_arena_program.Arena.State.{Config}
use prisoners_arena_program.Arena.Player.{
  enter_tournament, open_entry, new_entry, add_player, reveal_strategy, check_commitment, preimage,
  same_bytes,
}
use prisoners_arena_program.Arena.Finalize.{
  award, active_scores, count_from, winning_score, target_winners, sort_desc, insert_desc,
  house_fee, distributable, collect_fees, reimburse,
}
use prisoners_arena_program.Arena.Solvency.{award_solvent, spare-enter_tournament}
use prisoners_arena_program.Arena.Commitment.{reveal_strategy_binding}
use prisoners_arena_program.Arena.Refusals.{
  finalizes, handle, may_sign, call_phase, handle_unauthorized, handle_out_of_phase,
}
use prisoners_arena_program.Tests.Playing.{two_players}
use prisoners_arena_program.Tests.Accounts.{config, runtime, entry_of_five, world, finished}

-- A tournament that nobody has entered.
abbrev pub fresh : World
fresh = record world {
  tournament = new_tournament 0 1000 500 15 (pos 60) (pos 60) (pos 100) 254;
  entries = [];
  wallets = (5, 9000) ∷ [];
}

-- The rent is a lamport for each byte, and a longer account is charged what it lacks.
abbrev pub renting : Runtime
renting = record {
  minimum_balance = λ len. len;
  realloc_charge = λ len lamports. len - lamports;
  hash = λ bytes. bytes;
}

-- Player 5 enters it.
abbrev pub joined : World
joined = record fresh {
  tournament = record (new_tournament 0 1000 500 15 (pos 60) (pos 60) (pos 100) 254) {
    players = 5 ∷ [];
    scores = 0 ∷ [];
    strategies = 255 ∷ [];
    participant_count = 1;
    entries_remaining = 1;
    pool = 1000;
  };
  tournament_lamports = 2100;
  entries =
      record {
        entry = record (entry_of_five.entry) {
          commitment = 0 ∷ 9 ∷ [];
          score = 0;
          matches_played = 0;
        };
        lamports = 207;
      }
      ∷ [];
  wallets = (5, 7793) ∷ [];
}

spare-enter_tournament_example :
    spare renting joined
      + (renting.minimum_balance (data_len joined.tournament)
          - renting.minimum_balance (data_len fresh.tournament))
    ≡ spare renting fresh + fresh.tournament.stake
unfolding enter_tournament open_entry new_entry add_player find_entry debit new_tournament data_len
spare-enter_tournament_example =
    spare-enter_tournament renting 5 (0 ∷ 9 ∷ []) (pos 1) 253 fresh joined (λ len lamports. refl)
      (omega arith) (omega arith) refl

-- The reveal phase of that tournament, and the strategy of player 5 that is revealed.
abbrev opening : World
opening = record joined {
  tournament = record (joined.tournament) { state = reveal; reveal_ends = pos 160 };
}

-- A hash of one byte, which many lists have.
sum : List ℕ → ℕ
sum [] = 0
sum (x ∷ xs) = x + sum xs

abbrev hashing : Runtime
hashing = record renting { hash = λ bytes. sum bytes % 256 ∷ [] }

-- The entry commits to the strategy 0 with the salt 9.
abbrev committing : World
committing = record opening {
  entries =
      record {
        entry = record (entry_of_five.entry) { commitment = 9 ∷ []; score = 0; matches_played = 0 };
        lamports = 207;
      }
      ∷ [];
}

abbrev opened : World
opened = record committing {
  tournament = record (opening.tournament) { strategies = 0 ∷ []; reveals_completed = 1 };
  entries =
      record {
        entry = record (entry_of_five.entry) {
          commitment = 9 ∷ [];
          score = 0;
          matches_played = 0;
          revealed = true;
        };
        lamports = 207;
      }
      ∷ [];
}

reveal_strategy_binding_example : (Strategy.tit_for_tat ≡ Strategy.tit_for_tat) × (opened ≡ opened)
unfolding sum reveal_strategy check_commitment preimage same_bytes strategy_index find_entry
    write_entry new_tournament
reveal_strategy_binding_example =
    reveal_strategy_binding hashing 5 Strategy.tit_for_tat Strategy.tit_for_tat (9 ∷ []) (9 ∷ [])
      none (some (3 ∷ [])) (pos 120) (pos 150) committing opened opened (λ e. refl) (λ e. cc) refl
      refl refl

-- The matches of two players are over, and the account has what their entries have left in it: of the
-- pool of 2000 on top of the rent only 1963.
abbrev pub ended : World
ended = record (two_players 30 30 1) {
  tournament = record ((two_players 30 30 1).tournament) { operator_costs = 7 };
  tournament_lamports = 2236;
  wallets = (5, 7) ∷ (2, 360) ∷ [];
}

abbrev rewarded : World
rewarded = record ended {
  config = record config { accumulated_fees = 141 };
  config_lamports = 201;
  tournament = record (ended.tournament) {
    state = payout;
    payout_started_at = pos 1000;
    min_winning_score = 30;
    winner_count = 2;
    winner_pool = 1892;
  };
  tournament_lamports = 2128;
  wallets = (5, 7) ∷ (2, 367) ∷ [];
}

award_solvent_example : rewarded.tournament.winner_pool ≤ rewarded.tournament_lamports
unfolding award active_scores count_from winning_score target_winners sort_desc insert_desc
    house_fee distributable collect_fees reimburse take_from_tournament credit checked_sub
    checked_u64 data_len new_tournament
award_solvent_example = award_solvent renting 2 (pos 1000) ended rewarded (omega arith) refl

-- Player 5 signs the operator's call.
handle_unauthorized_example :
    handle runtime (finalizes 5 (pos 1000) 252) finished ≡ err unauthorized
unfolding may_sign
handle_unauthorized_example = handle_unauthorized runtime (finalizes 5 (pos 1000) 252) finished refl

-- The operator signs it, while players still enter.
handle_out_of_phase_example :
    (e : ArenaError) × (handle runtime (finalizes 2 (pos 1000) 252) world ≡ err e)
unfolding call_phase new_tournament
handle_out_of_phase_example =
    handle_out_of_phase runtime (finalizes 2 (pos 1000) 252) world {s = running} refl (λ e. cc)

abbrev pub initial : InitializeConfigParams
initial = record {
  operator = 2;
  stake = 1000;
  min_participants = 2;
  max_participants = 10;
  registration_duration = pos 60;
  matches_per_player = 15;
  reveal_duration = pos 60;
}

-- The fee of the house is set, and the least number of players is raised above the most.
abbrev raises : UpdateConfigParams
raises = record {
  operator = none;
  house_fee_bps = some 500;
  stake = none;
  min_participants = some 12;
  max_participants = none;
  registration_duration = none;
  matches_per_player = none;
  reveal_duration = none;
  operator_tx_fee = some 1;
}

abbrev pub initialized : Config
initialized = record config { house_fee_bps = 0; accumulated_fees = 0; operator_tx_fee = 0 }

abbrev raised : Config
raised = record config { min_participants = 12; accumulated_fees = 0 }

initialize_config-update_all_example : IsConfigured raised
unfolding initialize_config add_i64 wrap_i64 ltb_ℤ update_all update_config update_terms
    update_schedule new_tournament
initialize_config-update_all_example =
    initialize_config-update_all 1 initial (pos 40) 255 254 initialized raised
      (new_tournament 0 1000 0 15 (pos 60) (pos 60) (pos 100) 254) ((1, raises) ∷ []) refl refl
