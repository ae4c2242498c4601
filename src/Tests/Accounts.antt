-- ===== src/Tests/Accounts.antt =====
-- The theorems on the accounts at a tournament of one player.
use prisoners_arena_program.Arena.Phases.{rank, phase-execute_all}
use prisoners_arena_program.Arena.Lifecycle.{close_registration}
use prisoners_arena_program.Arena.State.{reveal}
use prisoners_arena_program.Arena.Session.{closes_registration}
use prisoners_arena_program.Base.Int.{wrap_i64}
use prisoners_arena_program.Base.{◌≤◌, ◌≡◌, refl, false, [], ◌∷◌, replicate}
use prisoners_arena_program.Base.Int.{pos, add_i64}
use prisoners_arena_program.Arena.State.{
  Config, Tournament, Strategy, new_tournament, running, payout,
}
use prisoners_arena_program.Arena.Ledger.{credit, checked_sub}
use prisoners_arena_program.Arena.World.{
  Runtime, World, EntryAccount, find_entry, remove_entry, take_from_tournament, checked_u64,
  total_lamports,
}
use prisoners_arena_program.Arena.Admin.{withdraw_fees}
use prisoners_arena_program.Arena.Player.{claim_refund, drop_player}
use prisoners_arena_program.Arena.Lifecycle.{add_costs}
use prisoners_arena_program.Arena.Session.{
  execute_all, execute, claims_refund, withdraws, total_lamports-execute_all,
}

abbrev pub runtime : Runtime
runtime = record { minimum_balance = λ _. 50; realloc_charge = λ _ _. 3; hash = λ bytes. bytes }

abbrev pub config : Config
config = record {
  admin = 1;
  operator = 2;
  house_fee_bps = 500;
  stake = 1000;
  min_participants = 2;
  max_participants = 10;
  registration_duration = pos 60;
  matches_per_player = 15;
  accumulated_fees = 40;
  current_tournament_id = 0;
  reveal_duration = pos 60;
  bump = 255;
  operator_tx_fee = 1;
}

-- Player 5 has entered.
abbrev pub entered : Tournament
entered = record (new_tournament 0 1000 500 15 (pos 60) (pos 60) (pos 100) 254) {
  players = 5 ∷ [];
  scores = 30 ∷ [];
  strategies = 255 ∷ [];
  participant_count = 1;
  entries_remaining = 1;
  pool = 1000;
}

abbrev pub entry_of_five : EntryAccount
entry_of_five = record {
  entry = record {
    player = 5;
    index = 0;
    commitment = replicate 32 0;
    strategy = Strategy.tit_for_tat;
    revealed = false;
    score = 30;
    matches_played = 1;
    paid_out = false;
    created_at = pos 1;
    bump = 253;
    bytecode_len = 0;
    bytecode = replicate 64 0;
  };
  lamports = 50;
}

abbrev pub world : World
world = record {
  config = config;
  config_lamports = 100;
  tournament = entered;
  tournament_lamports = 1100;
  entries = entry_of_five ∷ [];
  wallets = (5, 7) ∷ (2, 60) ∷ [];
}

-- After player 5 has taken the stake back and the admin has withdrawn the fees.
abbrev refunded : World
refunded = record {
  config = record config { accumulated_fees = 0 };
  config_lamports = 60;
  tournament = record entered {
    players = 0 ∷ [];
    participant_count = 0;
    entries_remaining = 0;
    pool = 0;
  };
  tournament_lamports = 100;
  entries = [];
  wallets = (5, 1057) ∷ (2, 60) ∷ (1, 40) ∷ [];
}

total_lamports-execute_all_example : total_lamports refunded ≡ total_lamports world
unfolding execute_all execute withdraw_fees claim_refund drop_player take_from_tournament find_entry
    remove_entry credit checked_sub new_tournament
total_lamports-execute_all_example =
    total_lamports-execute_all runtime (claims_refund 5 ∷ withdraws 1 ∷ []) world refunded refl

-- The matches are over, at some costs of the operator.
abbrev pub finished : World
finished = record world { tournament = record entered { state = running; operator_costs = 4 } }

abbrev pub awarded : World
awarded = record world {
  config = record config { accumulated_fees = 90 };
  config_lamports = 150;
  tournament = record entered {
    state = payout;
    operator_costs = 4;
    payout_started_at = pos 1000;
    min_winning_score = 30;
    winner_count = 1;
    winner_pool = 946;
  };
  tournament_lamports = 1046;
  wallets = (5, 7) ∷ (2, 64) ∷ [];
}

-- One player is enough, and registration is over.
abbrev ready : World
ready = record world { config = record config { min_participants = 1 } }

abbrev pub revealing : World
revealing = record ready {
  tournament = record entered { state = reveal; reveal_ends = pos 160; operator_costs = 1 };
}

phase-execute_all_example : rank ready.tournament.state ≤ rank revealing.tournament.state
unfolding execute_all execute close_registration add_costs checked_u64 add_i64 wrap_i64
    new_tournament
phase-execute_all_example =
    phase-execute_all runtime (closes_registration 2 (pos 100) ∷ []) ready revealing refl
