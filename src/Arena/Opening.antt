-- ===== src/Arena/Opening.antt =====
-- The tournaments of programs/prisoners-arena before their matches: what registration and reveal
-- leave to be played with.
pub mod Steps
pub mod Start
pub mod Drawing
use prisoners_arena_program.Base.{ℕ, ◌<◌, ◌≡◌}
use prisoners_arena_program.Arena.World.{World}
use prisoners_arena_program.Arena.Progress.Lookup.{AllLe, AllPlayable}

-- No match is completed, nobody has a score, and the programs fit their arrays.
pub record IsUnplayed (w : World) : Type 0 where
  pub completed : w.tournament.matches_completed ≡ 0
  pub scores : AllLe 0 w.tournament.scores
  pub playable : AllPlayable 0 w.entries
