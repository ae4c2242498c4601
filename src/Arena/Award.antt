-- ===== src/Arena/Award.antt =====
-- The winners' part of `finalize_tournament` of programs/prisoners-arena.
use prisoners_arena_program.Base.{◌*◌, ◌≤◌, ◌≡◌, arith, ok}
use native.Mathlib.Nat.{mul-div_cancel, div-mul-le_self}
use prisoners_arena_program.Base.Int.{ℤ}
use prisoners_arena_program.Arena.State.{Pubkey}
use prisoners_arena_program.Arena.World.{Runtime, World, take_from_tournament}
use prisoners_arena_program.Arena.Player.{share}
use prisoners_arena_program.Arena.Finalize.{award, distributable, collect_fees, reimburse}

-- When the awards are accepted there is at least one winner, the equal shares of the winners make up
-- the winners' pool, and that is at most the pool.
pub share-award :
    (rt : Runtime) (operator : Pubkey) (now : ℤ) (w w' : World)
    → award rt operator now w ≡ ok w'
    → (1 ≤ w'.tournament.winner_count)
      × (share w'.tournament * w'.tournament.winner_count ≡ w'.tournament.winner_pool)
      × (w'.tournament.winner_pool ≤ w.tournament.pool)
unfolding award share distributable collect_fees reimburse take_from_tournament
share-award rt operator now w w' h = grind (arith, mul-div_cancel, div-mul-le_self)
