-- ===== src/Arena/Payout.antt =====
-- The payout phase of programs/prisoners-arena: what the tournament's account owes to the winners.
pub mod Counting
pub mod Steps
pub mod Finalized
pub mod Owing
pub mod Claims
use Counting.{qualified}
use prisoners_arena_program.Base.{◌*◌, ◌≤◌, ◌≡◌}
use prisoners_arena_program.Arena.State.{Tournament, payout}
use prisoners_arena_program.Arena.World.{Runtime, World, spare}
use prisoners_arena_program.Arena.Player.{share}

-- The terms of the prizes, which stay from the finalization on.
pub record SamePrizes (t t' : Tournament) : Type 0 where
  pub pool : t'.winner_pool ≡ t.winner_pool
  pub count : t'.winner_count ≡ t.winner_count
  pub threshold : t'.min_winning_score ≡ t.min_winning_score
  pub started : t'.payout_started_at ≡ t.payout_started_at

-- What the account holds covers the shares of all the winners who still have their entries.
pub record IsCovered (rt : Runtime) (w : World) : Type 0 where
  pub now : w.tournament.state ≡ payout
  pub covered :
      share w.tournament * qualified w.tournament.min_winning_score w.entries
      ≤ w.tournament_lamports
