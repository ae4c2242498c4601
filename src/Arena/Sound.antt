-- ===== src/Arena/Sound.antt =====
-- The well-formedness of a tournament of programs/prisoners-arena and its entries.
pub mod Slots
pub mod Seats
pub mod Entering
pub mod Refunding
pub mod Revealing
pub mod Closing
pub mod Refunded
pub mod Evening
pub mod Pairs
pub mod Playing
pub mod Paying
pub mod Administering
pub mod Finalizing
pub mod Reach
pub mod Occupied
use Slots.{active, revealed}
use Seats.{Seated}
use prisoners_arena_program.Base.{ℕ, ◌≤◌, ◌<◌, ◌≡◌, ◌^◌, Bool, true, false, List, length}
use prisoners_arena_program.Arena.State.{
  Tournament, TournamentState, registration, running, payout, same_state,
}
use prisoners_arena_program.Arena.World.{EntryAccount, World}

-- The three vectors have one length, that a u16 holds. The counters count: the active players, the
-- entries, the active players with a strategy. Each entry is at the slot of its player. Until the
-- payout every active player has an entry; nobody is revealed during registration, and all the
-- active players are when the matches run.
pub record IsSound (t : Tournament) (es : List EntryAccount) : Type 0 where
  pub scores : length t.scores ≡ length t.players
  pub strategies : length t.strategies ≡ length t.players
  pub few : length t.players < 2 ^ 16
  pub counted : t.participant_count ≡ active t.players
  pub entered : t.entries_remaining ≡ length es
  pub seated : Seated t.players t.strategies es
  pub opened : same_state t.state payout ≡ false → length es ≡ active t.players
  pub hidden : same_state t.state registration ≡ true → t.reveals_completed ≡ 0
  pub tallied : t.reveals_completed ≡ revealed t.players t.strategies
  pub complete : same_state t.state running ≡ true → t.reveals_completed ≡ t.participant_count

-- The same of a world, in whose config `max_participants` is a u16.
pub record IsSoundWorld (w : World) : Type 0 where
  pub typed : w.config.max_participants < 2 ^ 16
  pub sound : IsSound w.tournament w.entries
