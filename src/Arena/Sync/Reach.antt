-- ===== src/Arena/Sync/Reach.antt =====
-- The scores of programs/prisoners-arena through every instruction.
use prisoners_arena_program.Base.{ℕ, ◌≡◌, refl, [], ok}
use prisoners_arena_program.Base.Int.{ℤ}
use prisoners_arena_program.Arena.State.{Tournament, new_tournament}
use prisoners_arena_program.Arena.World.{Runtime, World}
use prisoners_arena_program.Arena.Session.{
  Instruction, updates, withdraws, enters, reveals, claims_refund, claims_payout,
  closes_registration, closes_reveal, forfeits, runs, closes_entry, closes_tournament, execute,
}
use prisoners_arena_program.Arena.Opening.Start.{updates-keeps}
use prisoners_arena_program.Arena.Refusals.{phase_of}
use prisoners_arena_program.Arena.Sound.{IsSoundWorld}
use prisoners_arena_program.Arena.Sync.{IsSynced}
use prisoners_arena_program.Arena.Sync.Playing.{run_matches-IsSynced}
use prisoners_arena_program.Arena.Sync.Drawing.{close_reveal-IsSynced}
use prisoners_arena_program.Arena.Sync.Steps.{
  enter_tournament-IsSynced, claim_refund-IsSynced, reveal_strategy-IsSynced,
  forfeit_unrevealed-IsSynced, close_registration-IsSynced, claim_payout-IsSynced,
  close_entry-IsSynced, close_tournament-IsSynced,
}

pub execute-IsSynced :
    (rt : Runtime) (i : Instruction) (w w' : World)
    → IsSoundWorld w
    → IsSynced w.tournament w.entries
    → execute rt i w ≡ ok w'
    → IsSynced w'.tournament w'.entries
unfolding execute phase_of
execute-IsSynced rt (updates signer p) w w' v y h =
    let (et, ee, _) = updates-keeps rt (updates signer p) w w' refl h in rw (et, ee) y
execute-IsSynced rt (withdraws signer) w w' v y h =
    let (et, ee, _) = updates-keeps rt (withdraws signer) w w' refl h in rw (et, ee) y
execute-IsSynced rt (enters player c now bump) w w' v y h =
    enter_tournament-IsSynced rt player c now bump w w' v.sound y h
execute-IsSynced rt (reveals player s salt code now) w w' v y h =
    reveal_strategy-IsSynced rt player s salt code now w w' y h
execute-IsSynced rt (claims_refund player) w w' v y h = claim_refund-IsSynced player w w' y h
execute-IsSynced rt (claims_payout player now) w w' v y h =
    claim_payout-IsSynced player now w w' y h
execute-IsSynced rt (closes_registration signer now) w w' v y h =
    close_registration-IsSynced signer now w w' y h
execute-IsSynced rt (closes_reveal signer now hashes entry player) w w' v y h =
    close_reveal-IsSynced signer now hashes entry player w w' y h
execute-IsSynced rt (forfeits signer player now hashes) w w' v y h =
    forfeit_unrevealed-IsSynced signer player now hashes w w' y h
execute-IsSynced rt (runs signer passed) w w' v y h = run_matches-IsSynced signer passed w w' v y h
execute-IsSynced rt (closes_entry signer player now) w w' v y h =
    close_entry-IsSynced rt signer player now w w' y h
execute-IsSynced rt (closes_tournament signer now) w w' v y h =
    close_tournament-IsSynced signer now w w' y h

-- A new tournament has no entries.
pub new_tournament-IsSynced :
    (t : Tournament) (id stake fee k : ℕ) (d r ends : ℤ) (bump : ℕ)
    → t ≡ new_tournament id stake fee k d r ends bump
    → IsSynced t []
unfolding new_tournament
new_tournament-IsSynced t id stake fee k d r ends bump e =
    rw e (record { told = tt; drawn = λ now. absurd (cc) })
