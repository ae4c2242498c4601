-- ===== src/Arena/State.antt =====
-- programs/prisoners-arena/src/state.rs: the accounts, and the conversion of strategies.
use prisoners_arena_program.Base.{
  ℕ, ◌+◌, ◌*◌, Bool, false, Option, none, some, List, [], length, get_elem?, ◌∷◌, replicate, ◌==◌,
}
use prisoners_arena_program.Base.Int.{ℤ, pos}
use prisoners_arena_program.Strategy.{PlayerStrategy, StrategyBase}

-- A `Pubkey` is the number of its bytes; `Pubkey::default()` is 0.
abbrev pub Pubkey : Type 0
Pubkey = ℕ

abbrev pub default_key : Pubkey
default_key = 0

abbrev pub is_default : Pubkey → Bool
is_default key = key == 0

abbrev pub claim_expiry_seconds : ℤ
claim_expiry_seconds = pos 2592000

abbrev pub tournament_closure_seconds : ℤ
tournament_closure_seconds = pos 2592000

abbrev pub matches_per_tx : ℕ
matches_per_tx = 5

-- The strategy index of a slot with no strategy: `u8::MAX`.
abbrev pub no_strategy : ℕ
no_strategy = 255

pub record Config : Type 0 where
  pub admin : Pubkey
  pub operator : Pubkey
  pub house_fee_bps : ℕ
  pub stake : ℕ
  pub min_participants : ℕ
  pub max_participants : ℕ
  pub registration_duration : ℤ
  pub matches_per_player : ℕ
  pub accumulated_fees : ℕ
  pub current_tournament_id : ℕ
  pub reveal_duration : ℤ
  pub bump : ℕ
  pub operator_tx_fee : ℕ

pub data TournamentState : Type 0 where
  registration reveal running payout : TournamentState

-- `state == TournamentState::..`
abbrev pub same_state : TournamentState → TournamentState → Bool
same_state registration registration = Bool.true
same_state reveal reveal = Bool.true
same_state running running = Bool.true
same_state payout payout = Bool.true
same_state _ _ = false

pub record Tournament : Type 0 where
  pub id : ℕ
  pub state : TournamentState
  pub stake : ℕ
  pub house_fee_bps : ℕ
  pub matches_per_player : ℕ
  pub registration_duration : ℤ
  pub pool : ℕ
  pub participant_count : ℕ
  pub registration_ends : ℤ
  pub matches_completed : ℕ
  pub matches_total : ℕ
  pub randomness_seed : List ℕ
  pub min_winning_score : ℕ
  pub winner_count : ℕ
  pub winner_pool : ℕ
  pub claims_processed : ℕ
  pub payout_started_at : ℤ
  pub entries_remaining : ℕ
  pub round_tier : ℕ
  pub reveal_ends : ℤ
  pub reveal_duration : ℤ
  pub reveals_completed : ℕ
  pub players : List Pubkey
  pub scores : List ℕ
  pub strategies : List ℕ
  pub bump : ℕ
  pub operator_costs : ℕ

-- Discriminator, fields, empty vectors and padding.
abbrev pub base_space : ℕ
base_space = 199

abbrev pub bytes_per_player : ℕ
bytes_per_player = 37

-- `tournament_info.data_len()`: the account has grown by one slot for each player.
unfoldable pub data_len : Tournament → ℕ
data_len t = base_space + length t.players * bytes_per_player

abbrev pub entry_len : ℕ
entry_len = 207

abbrev pub config_len : ℕ
config_len = 141

pub data Strategy : Type 0 where
  tit_for_tat always_defect always_cooperate grim_trigger pavlov : Strategy
  suspicious_tit_for_tat random tit_for_two_tats gradual custom : Strategy

abbrev pub strategies_in_order : List Strategy
strategies_in_order =
    tit_for_tat ∷ always_defect ∷ always_cooperate ∷ grim_trigger ∷ pavlov ∷ suspicious_tit_for_tat
    ∷ random ∷ tit_for_two_tats ∷ gradual ∷ custom ∷ []

unfoldable pub from_index : ℕ → Option Strategy
from_index index = get_elem? strategies_in_order index

-- `strategy as u8`
unfoldable pub strategy_index : Strategy → ℕ
strategy_index tit_for_tat = 0
strategy_index always_defect = 1
strategy_index always_cooperate = 2
strategy_index grim_trigger = 3
strategy_index pavlov = 4
strategy_index suspicious_tit_for_tat = 5
strategy_index random = 6
strategy_index tit_for_two_tats = 7
strategy_index gradual = 8
strategy_index custom = 9

abbrev pub is_custom : Strategy → Bool
is_custom custom = Bool.true
is_custom _ = false

pub record Entry : Type 0 where
  pub player : Pubkey
  pub index : ℕ
  pub commitment : List ℕ
  pub strategy : Strategy
  pub revealed : Bool
  pub score : ℕ
  pub matches_played : ℕ
  pub paid_out : Bool
  pub created_at : ℤ
  pub bump : ℕ
  pub bytecode_len : ℕ
  pub bytecode : List ℕ

-- `bytecode.unwrap_or(&[])`
abbrev pub or_empty : Option (List ℕ) → List ℕ
or_empty none = []
or_empty (some code) = code

unfoldable pub to_player_strategy : Strategy → Option (List ℕ) → PlayerStrategy
to_player_strategy custom bytecode = PlayerStrategy.custom (or_empty bytecode)
to_player_strategy tit_for_tat bytecode = PlayerStrategy.builtin StrategyBase.tit_for_tat
to_player_strategy always_defect bytecode = PlayerStrategy.builtin StrategyBase.always_defect
to_player_strategy always_cooperate bytecode = PlayerStrategy.builtin StrategyBase.always_cooperate
to_player_strategy grim_trigger bytecode = PlayerStrategy.builtin StrategyBase.grim_trigger
to_player_strategy pavlov bytecode = PlayerStrategy.builtin StrategyBase.pavlov
to_player_strategy suspicious_tit_for_tat bytecode =
    PlayerStrategy.builtin StrategyBase.suspicious_tit_for_tat
to_player_strategy random bytecode = PlayerStrategy.builtin StrategyBase.random
to_player_strategy tit_for_two_tats bytecode = PlayerStrategy.builtin StrategyBase.tit_for_two_tats
to_player_strategy gradual bytecode = PlayerStrategy.builtin StrategyBase.gradual

-- A tournament as it is created, from the values that it snapshots.
unfoldable pub new_tournament : ℕ → ℕ → ℕ → ℕ → ℤ → ℤ → ℤ → ℕ → Tournament
new_tournament id stake house_fee_bps matches_per_player registration_duration reveal_duration
      registration_ends bump =
    record {
      id = id;
      state = registration;
      stake = stake;
      house_fee_bps = house_fee_bps;
      matches_per_player = matches_per_player;
      registration_duration = registration_duration;
      pool = 0;
      participant_count = 0;
      registration_ends = registration_ends;
      matches_completed = 0;
      matches_total = 0;
      randomness_seed = replicate 32 0;
      min_winning_score = 0;
      winner_count = 0;
      winner_pool = 0;
      claims_processed = 0;
      payout_started_at = pos 0;
      entries_remaining = 0;
      round_tier = 0;
      reveal_ends = pos 0;
      reveal_duration = reveal_duration;
      reveals_completed = 0;
      players = [];
      scores = [];
      strategies = [];
      bump = bump;
      operator_costs = 0;
    }
