-- ===== src/Arena/Pool/Reach.antt =====
-- The pool of programs/prisoners-arena through every instruction.
use prisoners_arena_program.Base.{ℕ, [], ◌<◌, ◌^◌, ◌≡◌, refl, arith, ap, ok}
use prisoners_arena_program.Base.Int.{ℤ}
use prisoners_arena_program.Arena.State.{Tournament, new_tournament}
use prisoners_arena_program.Arena.World.{Runtime, World}
use prisoners_arena_program.Arena.Session.{
  Instruction, updates, withdraws, enters, reveals, claims_refund, claims_payout,
  closes_registration, closes_reveal, forfeits, runs, closes_entry, closes_tournament, execute,
}
use prisoners_arena_program.Arena.Opening.Start.{updates-keeps}
use prisoners_arena_program.Arena.Refusals.{phase_of}
use prisoners_arena_program.Arena.Pool.{IsPooled, SamePool-IsPooled}
use prisoners_arena_program.Arena.Pool.Steps.{
  enter_tournament-IsPooled, claim_refund-IsPooled, reveal_strategy-SamePool,
  forfeit_unrevealed-SamePool, close_registration-SamePool, claim_payout-SamePool,
  close_entry-SamePool, close_tournament-SamePool,
}
use prisoners_arena_program.Arena.Pool.Matches.{close_reveal-IsPooled, run_matches-SamePool}

pub execute-IsPooled :
    (rt : Runtime) (i : Instruction) (w w' : World)
    → w.config.max_participants < 2 ^ 16
    → IsPooled w.tournament
    → execute rt i w ≡ ok w'
    → IsPooled w'.tournament
unfolding execute phase_of
execute-IsPooled rt (updates signer p) w w' s v h =
    let (et, _, _) = updates-keeps rt (updates signer p) w w' refl h in rw et v
execute-IsPooled rt (withdraws signer) w w' s v h =
    let (et, _, _) = updates-keeps rt (withdraws signer) w w' refl h in rw et v
execute-IsPooled rt (enters player c now bump) w w' s v h =
    enter_tournament-IsPooled rt player c now bump w w' s v h
execute-IsPooled rt (reveals player st salt code now) w w' s v h =
    SamePool-IsPooled w.tournament w'.tournament
      (reveal_strategy-SamePool rt player st salt code now w w' h) v
execute-IsPooled rt (claims_refund player) w w' s v h = claim_refund-IsPooled player w w' v h
execute-IsPooled rt (claims_payout player now) w w' s v h =
    SamePool-IsPooled w.tournament w'.tournament (claim_payout-SamePool player now w w' h) v
execute-IsPooled rt (closes_registration signer now) w w' s v h =
    SamePool-IsPooled w.tournament w'.tournament (close_registration-SamePool signer now w w' h) v
execute-IsPooled rt (closes_reveal signer now hashes entry player) w w' s v h =
    close_reveal-IsPooled signer now hashes entry player w w' v h
execute-IsPooled rt (forfeits signer player now hashes) w w' s v h =
    SamePool-IsPooled w.tournament w'.tournament
      (forfeit_unrevealed-SamePool signer player now hashes w w' h) v
execute-IsPooled rt (runs signer passed) w w' s v h =
    SamePool-IsPooled w.tournament w'.tournament (run_matches-SamePool signer passed w w' h) v
execute-IsPooled rt (closes_entry signer player now) w w' s v h =
    SamePool-IsPooled w.tournament w'.tournament (close_entry-SamePool rt signer player now w w' h)
      v
execute-IsPooled rt (closes_tournament signer now) w w' s v h =
    SamePool-IsPooled w.tournament w'.tournament (close_tournament-SamePool signer now w w' h) v

-- A new tournament has no players and no pool.
pub new_tournament-IsPooled :
    (t : Tournament) (id stake fee k : ℕ) (d r ends : ℤ) (bump : ℕ)
    → t ≡ new_tournament id stake fee k d r ends bump
    → IsPooled t
unfolding new_tournament
new_tournament-IsPooled t id stake fee k d r ends bump e =
    let nothing : t.pool ≡ 0 = ap (λ x. x.pool) e in
    let nobody : t.participant_count ≡ 0 = ap (λ x. x.participant_count) e in
    let no_slot : t.players ≡ [] = ap (λ x. x.players) e in
    record {
      few = rw no_slot (omega arith);
      within = rw (nobody, no_slot) (omega arith);
      pooled = λ small. rw (nothing, nobody) (omega arith);
    }
