-- ===== src/Arena/Payout/Finalized.antt =====
-- The winners of programs/prisoners-arena when `finalize_tournament` is accepted.
use prisoners_arena_program.Base.{ℕ, ◌≤◌, ◌≡◌, refl, arith, ok, length, sym, ◌∙◌, inl, inr}
use prisoners_arena_program.Base.Int.{ℤ}
use prisoners_arena_program.Arena.State.{Pubkey, Tournament, running, base_space}
use prisoners_arena_program.Arena.World.{Runtime, World, charge, take_from_tournament}
use prisoners_arena_program.Arena.Lifecycle.{add_costs}
use prisoners_arena_program.Arena.Player.{share}
use prisoners_arena_program.Arena.Finalize.{
  collect_fees, reimburse, sweep, award, add_final_costs, finalize_tournament, NextTournament,
}
use prisoners_arena_program.Arena.Award.{share-award}
use prisoners_arena_program.Arena.Winners.{award-ok}
use prisoners_arena_program.Arena.Solvency.{award_solvent}
use prisoners_arena_program.Arena.Sound.{IsSound}
use prisoners_arena_program.Arena.Sound.Slots.{active}
use prisoners_arena_program.Arena.Sound.Seats.{Seated}
use prisoners_arena_program.Arena.Sound.Finalizing.{
  finalize_tournament-ok, award-Moves, sweep-Moves, add_final_costs-Moves, charge-keeps,
}
use prisoners_arena_program.Arena.Sync.{IsSynced}
use prisoners_arena_program.Arena.Sync.Entries.{AllTell}
use prisoners_arena_program.Arena.Payout.{IsCovered}
use prisoners_arena_program.Arena.Payout.Counting.{qualified, qualified-count_from}

-- An account that holds the pool, with an entry at every active player that tells the score.
record IsReady (rt : Runtime) (w : World) : Type 0 where
  scores : length w.tournament.scores ≡ length w.tournament.players
  seated : Seated w.tournament.players w.tournament.strategies w.entries
  told : AllTell w.tournament.scores w.entries
  all : length w.entries ≡ active w.tournament.players
  funded : w.tournament.pool ≤ w.tournament_lamports

qualified-award :
    (rt : Runtime) (operator : Pubkey) (now : ℤ) (w w' : World)
    → IsReady rt w
    → award rt operator now w ≡ ok w'
    → qualified w'.tournament.min_winning_score w'.entries ≡ w'.tournament.winner_count
qualified-award rt operator now w w' v h =
    let (scores, e, em, ec) = award-ok rt operator now w w' h in
    let m = award-Moves rt operator now w w' h in
    rw m.entries (
      qualified-count_from w'.tournament.min_winning_score w.tournament.players
        w.tournament.strategies w.tournament.scores scores w.entries v.scores v.seated v.told v.all
        e)
    ∙ sym ec

award-IsCovered :
    (rt : Runtime) (operator : Pubkey) (now : ℤ) (w w' : World)
    → IsReady rt w
    → award rt operator now w ≡ ok w'
    → IsCovered rt w'
award-IsCovered rt operator now w w' v h =
    let (_, whole, _) = share-award rt operator now w w' h in
    record {
      now = (award-Moves rt operator now w w' h).state;
      covered =
          rw (qualified-award rt operator now w w' v h, whole)
            (award_solvent rt operator now w w' v.funded h);
    }

-- Without players there are no prizes.
sweep-IsCovered :
    (rt : Runtime) (operator : Pubkey) (now : ℤ) (w w' : World)
    → sweep rt operator now w ≡ ok w'
    → IsCovered rt w'
unfolding sweep collect_fees reimburse take_from_tournament share
sweep-IsCovered rt operator now w w' h =
    let nothing : w'.tournament.winner_pool ≡ 0 = grind arith in
    let nobody : w'.tournament.winner_count ≡ 0 = grind arith in
    record {
      now = (sweep-Moves rt operator now w w' h).state;
      covered =
          (let none_due : share w'.tournament ≡ 0 = rw (nothing, nobody) refl in
            rw none_due (omega arith));
    }

finalize_tournament-IsReady :
    (rt : Runtime) (signer : Pubkey) (w w₀ : World) (t : Tournament)
    → IsSound w.tournament w.entries
    → IsSynced w.tournament w.entries
    → w.tournament.state ≡ running
    → w.tournament.pool ≤ w.tournament_lamports
    → charge signer (rt.minimum_balance base_space) w ≡ ok w₀
    → add_final_costs w.config.operator_tx_fee w.tournament ≡ ok t
    → IsReady rt (record w₀ { tournament = t })
unfolding add_final_costs add_costs
finalize_tournament-IsReady rt signer w w₀ t s y now funded paid costs =
    let (_, entries) = charge-keeps signer (rt.minimum_balance base_space) w w₀ paid in
    let lamports : w₀.tournament_lamports ≡ w.tournament_lamports = grind arith in
    let pool : t.pool ≡ w.tournament.pool = grind arith in
    let m = add_final_costs-Moves w.config.operator_tx_fee w t costs in
    record {
      scores = rw (m.scores, m.players) s.scores;
      seated = rw (m.players, m.strategies, entries) s.seated;
      told = rw (m.scores, entries) y.told;
      all = rw (m.players, entries) (s.opened (rw now refl));
      funded = omega (arith, funded, lamports, pool);
    }

-- When `finalize_tournament` is accepted on an account that holds the pool, it covers the shares of all the winners.
pub finalize_tournament-IsCovered :
    (rt : Runtime) (signer : Pubkey) (now : ℤ) (bump : ℕ) (w w' : World) (n : NextTournament)
    → IsSound w.tournament w.entries
    → IsSynced w.tournament w.entries
    → w.tournament.pool ≤ w.tournament_lamports
    → finalize_tournament rt signer now bump w ≡ ok (w', n)
    → IsCovered rt w'
finalize_tournament-IsCovered rt signer now bump w w' n s y funded h =
    let (st, w₀, w₂, t, paid, costs, branch, et, ec, ee, el) =
      finalize_tournament-ok rt signer now bump w w' n h in
    let ready = finalize_tournament-IsReady rt signer w w₀ t s y st funded paid costs in
    let c : IsCovered rt w₂ = elim branch [
      | inl e ↦ sweep-IsCovered rt signer now (record w₀ { tournament = t }) w₂ e
      | inr e ↦ award-IsCovered rt signer now (record w₀ { tournament = t }) w₂ ready e
    ] in
    record { now = rw et c.now; covered = rw (et, ee, el) c.covered }
