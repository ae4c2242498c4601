-- ===== src/Arena/Pool/Steps.antt =====
-- The pool of programs/prisoners-arena through the instructions but those of the matches.
use prisoners_arena_program.Base.{
  ℕ, [], ◌∷◌, ◌<◌, ap, ◌∙◌, length, length-append, length-set, ◌+◌, ◌-◌, ◌%◌, ◌^◌, ◌≤◌, ◌≡◌, refl,
  arith, Option, List, ok,
}
use prisoners_arena_program.Base.Int.{ℤ}
use prisoners_arena_program.Arena.State.{Pubkey, Tournament, Strategy}
use prisoners_arena_program.Arena.Ledger.{checked_sub}
use prisoners_arena_program.Arena.World.{Runtime, World, take_from_tournament}
use prisoners_arena_program.Arena.Player.{
  enter_tournament, add_player, reveal_strategy, claim_refund, drop_player, claim_payout,
}
use prisoners_arena_program.Arena.Lifecycle.{add_costs, close_registration, forfeit_unrevealed}
use prisoners_arena_program.Arena.Closing.{close_entry, settle, close_tournament}
use prisoners_arena_program.Arena.Finalize.{collect_fees}
use prisoners_arena_program.Arena.Commitment.{reveal_strategy-result, revealed_world}
use prisoners_arena_program.Arena.Sound.Entering.{enter_tournament-ok}
use prisoners_arena_program.Arena.Sound.Refunding.{claim_refund-ok, drop_player-ok}
use prisoners_arena_program.Arena.Pool.{IsPooled, SamePool, joins-IsPooled, leaves-IsPooled}

pub enter_tournament-IsPooled :
    (rt : Runtime) (player : Pubkey) (c : List ℕ) (now : ℤ) (bump : ℕ) (w w' : World)
    → w.config.max_participants < 2 ^ 16
    → IsPooled w.tournament
    → enter_tournament rt player c now bump w ≡ ok w'
    → IsPooled w'.tournament
unfolding add_player
enter_tournament-IsPooled rt player c now bump w w' small v h =
    let (_, reg, room, _, et, _) = enter_tournament-ok rt player c now bump w w' h in
    let count : (w.tournament.participant_count + 1) % 2 ^ 32 ≡ w.tournament.participant_count + 1 =
      omega (arith, v.few, v.within) in
    rw et (
      joins-IsPooled w.tournament (add_player player w.tournament) refl refl count
        (length-append w.tournament.players (player ∷ [])) (omega (arith, room, small)) v)

-- What a player who is refunded leaves of the pool.
drop_player-pool :
    (i : ℕ) (t t' : Tournament)
    → drop_player i t ≡ ok t'
    → (t'.stake ≡ t.stake) × (t.stake ≤ t.pool) × (t'.pool ≡ t.pool - t.stake)
unfolding drop_player checked_sub
drop_player-pool i t t' h = (grind arith, grind arith, grind arith)

pub claim_refund-IsPooled :
    (player : Pubkey) (w w' : World)
    → IsPooled w.tournament
    → claim_refund player w ≡ ok w'
    → IsPooled w'.tournament
claim_refund-IsPooled player w w' v h =
    let (a, found, now, dropped, ec, ee) = claim_refund-ok player w w' h in
    let (vacated, _) = drop_player-ok w.tournament w'.tournament a.entry.index dropped in
    let (stake, enough, pool) = drop_player-pool a.entry.index w.tournament w'.tournament dropped in
    leaves-IsPooled w.tournament w'.tournament stake
      (λ fits small. omega (arith, pool, enough, fits, small)) vacated.participants
      (ap length vacated.players ∙ length-set w.tournament.players a.entry.index 0) v

pub reveal_strategy-SamePool :
    (rt : Runtime) (player : Pubkey) (s : Strategy) (salt : List ℕ) (code : Option (List ℕ))
    (now : ℤ) (w w' : World)
    → reveal_strategy rt player s salt code now w ≡ ok w'
    → SamePool w.tournament w'.tournament
unfolding revealed_world
reveal_strategy-SamePool rt player s salt code now w w' h =
    let (a, e, ss, f, c, d, eu) = reveal_strategy-result rt player s salt code now w w' h in
    rw eu (record { stake = refl; pool = refl; participants = refl; players = refl })

pub forfeit_unrevealed-SamePool :
    (signer player : Pubkey) (now : ℤ) (hashes : List ℕ) (w w' : World)
    → forfeit_unrevealed signer player now hashes w ≡ ok w'
    → SamePool w.tournament w'.tournament
unfolding forfeit_unrevealed add_costs
forfeit_unrevealed-SamePool signer player now hashes w w' h = record {
  stake = grind arith;
  pool = grind arith;
  participants = grind arith;
  players = grind arith;
}

pub close_registration-SamePool :
    (signer : Pubkey) (now : ℤ) (w w' : World)
    → close_registration signer now w ≡ ok w'
    → SamePool w.tournament w'.tournament
unfolding close_registration add_costs
close_registration-SamePool signer now w w' h = record {
  stake = grind arith;
  pool = grind arith;
  participants = grind arith;
  players = grind arith;
}

pub claim_payout-SamePool :
    (player : Pubkey) (now : ℤ) (w w' : World)
    → claim_payout player now w ≡ ok w'
    → SamePool w.tournament w'.tournament
unfolding claim_payout take_from_tournament
claim_payout-SamePool player now w w' h = record {
  stake = grind arith;
  pool = grind arith;
  participants = grind arith;
  players = grind arith;
}

pub close_entry-SamePool :
    (rt : Runtime) (signer player : Pubkey) (now : ℤ) (w w' : World)
    → close_entry rt signer player now w ≡ ok w'
    → SamePool w.tournament w'.tournament
unfolding close_entry settle collect_fees take_from_tournament
close_entry-SamePool rt signer player now w w' h = record {
  stake = grind arith;
  pool = grind arith;
  participants = grind arith;
  players = grind arith;
}

pub close_tournament-SamePool :
    (signer : Pubkey) (now : ℤ) (w w' : World)
    → close_tournament signer now w ≡ ok w'
    → SamePool w.tournament w'.tournament
unfolding close_tournament
close_tournament-SamePool signer now w w' h = record {
  stake = grind arith;
  pool = grind arith;
  participants = grind arith;
  players = grind arith;
}
