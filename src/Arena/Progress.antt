-- ===== src/Arena/Progress.antt =====
-- A running tournament of programs/prisoners-arena.
pub mod Lookup
pub mod Match
pub mod Batch
pub mod Unpaired
use Lookup.{AllLe, AllPlayable}
use prisoners_arena_program.Base.{ℕ, ◌*◌, ◌≤◌, ◌<◌, ◌≡◌, true, some, List, get_elem?}
use prisoners_arena_program.Pairing.{calculate_match_count}
use prisoners_arena_program.Pairing.Counts.{effective_k}
use prisoners_arena_program.Arena.State.{Pubkey, running}
use prisoners_arena_program.Arena.World.{World}
use prisoners_arena_program.Arena.Running.{is_passed}
use prisoners_arena_program.Arena.Sound.{IsSoundWorld}

-- The matches run between 2 to 5000 players, with the numbers of matches that `close_reveal` draws
-- from some setting of matches per player. Scores are small for the matches that were completed, and
-- the programs fit their arrays.
pub record IsPlaying (w : World) : Type 0 where
  pub sound : IsSoundWorld w
  pub now : w.tournament.state ≡ running
  pub several : 2 ≤ w.tournament.participant_count
  pub allowed : w.tournament.participant_count ≤ 5000
  pub config_k : ℕ
  pub drawn : w.tournament.matches_per_player ≡ effective_k w.tournament.participant_count config_k
  pub total :
      w.tournament.matches_total
      ≡ calculate_match_count w.tournament.participant_count w.tournament.matches_per_player
          w.tournament.randomness_seed
  pub done : w.tournament.matches_completed ≤ w.tournament.matches_total
  pub low : AllLe (500 * w.tournament.matches_completed) w.tournament.scores
  pub playable : AllPlayable (500 * w.tournament.matches_completed) w.entries

-- The accounts of all the active players are passed.
abbrev pub PassesAll : List Pubkey → World → Type 0
PassesAll passed w =
    (i p : ℕ) → get_elem? w.tournament.players i ≡ some p → 0 < p → is_passed p passed ≡ true
