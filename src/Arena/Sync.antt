-- ===== src/Arena/Sync.antt =====
-- The scores in the entries of programs/prisoners-arena against those in the tournament: the comment
-- of `Entry::score` in state.rs.
pub mod Entries
pub mod Playing
pub mod Steps
pub mod Drawing
pub mod Reach
use Entries.{AllTell}
use prisoners_arena_program.Base.{ℕ, ◌≡◌, ◌⊎◌, List}
use prisoners_arena_program.Pairing.Counts.{effective_k}
use prisoners_arena_program.Arena.State.{Tournament, running}
use prisoners_arena_program.Arena.World.{EntryAccount}

-- No player is left, or the matches of each player are counted by `effective_k`.
abbrev pub IsDrawn : Tournament → Type 0
IsDrawn t =
    (t.participant_count ≡ 0)
    ⊎ ((config_k : ℕ) × (t.matches_per_player ≡ effective_k t.participant_count config_k))

-- Every entry has the score that the tournament has at its index.
pub record IsSynced (t : Tournament) (es : List EntryAccount) : Type 0 where
  pub told : AllTell t.scores es
  pub drawn : t.state ≡ running → IsDrawn t
