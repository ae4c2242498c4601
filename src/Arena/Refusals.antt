-- ===== src/Arena/Refusals.antt =====
-- Instructions of programs/prisoners-arena that are refused: by another signer than the operator or
-- the admin, and in another phase than theirs.
use prisoners_arena_program.Base.{
  ℕ, ◌≡◌, ◌≢◌, arith, Bool, true, false, ◌||◌, ◌==◌, ◌>>=◌, Option, none, some, ok, err, inl, inr,
  Result-cases,
}
use prisoners_arena_program.Arena.Error.{ArenaError, Outcome, unauthorized}
use prisoners_arena_program.Arena.State.{
  Pubkey, Config, TournamentState, registration, reveal, running, payout,
}
use prisoners_arena_program.Arena.World.{Runtime, World}
use prisoners_arena_program.Arena.Admin.{update_config, withdraw_fees}
use prisoners_arena_program.Arena.Player.{
  enter_tournament, open_entry, reveal_strategy, claim_refund, claim_payout,
}
use prisoners_arena_program.Arena.Lifecycle.{close_registration, close_reveal, forfeit_unrevealed}
use prisoners_arena_program.Arena.Running.{run_matches}
use prisoners_arena_program.Base.Int.{ℤ}
use prisoners_arena_program.Arena.Finalize.{finalize_tournament}
use prisoners_arena_program.Arena.Closing.{close_entry, close_tournament}
use prisoners_arena_program.Arena.Session.{
  Instruction, updates, withdraws, enters, reveals, claims_refund, claims_payout,
  closes_registration, closes_reveal, forfeits, runs, closes_entry, closes_tournament, execute,
}

-- A call of the program on a tournament: an instruction of `execute`, or `finalize_tournament`.
pub data Call : Type 0 where
  executes : Instruction → Call
  finalizes : Pubkey → ℤ → ℕ → Call

unfoldable pub handle : Runtime → Call → World → Outcome World
handle rt (executes i) w = execute rt i w
handle rt (finalizes signer now bump) w = do
  (w', _) ← finalize_tournament rt signer now bump w
  ok w'

-- Who may sign: the admin, the operator, either of them for `close_tournament`, or any player.
unfoldable pub may_sign : Config → Call → Bool
may_sign c (executes (updates signer p)) = signer == c.admin
may_sign c (executes (withdraws signer)) = signer == c.admin
may_sign c (executes (closes_registration signer now)) = signer == c.operator
may_sign c (executes (closes_reveal signer now hashes entry player)) = signer == c.operator
may_sign c (executes (forfeits signer player now hashes)) = signer == c.operator
may_sign c (executes (runs signer passed)) = signer == c.operator
may_sign c (executes (closes_entry signer player now)) = signer == c.operator
may_sign c (executes (closes_tournament signer now)) = (signer == c.operator) || (signer == c.admin)
may_sign c (executes _) = true
may_sign c (finalizes signer now bump) = signer == c.operator

-- The phase of an instruction on the tournament.
unfoldable pub phase_of : Instruction → Option TournamentState
phase_of (updates signer p) = none
phase_of (withdraws signer) = none
phase_of (enters player c now bump) = some registration
phase_of (reveals player s salt code now) = some reveal
phase_of (claims_refund player) = some registration
phase_of (claims_payout player now) = some payout
phase_of (closes_registration signer now) = some registration
phase_of (closes_reveal signer now hashes entry player) = some reveal
phase_of (forfeits signer player now hashes) = some reveal
phase_of (runs signer passed) = some running
phase_of (closes_entry signer player now) = some payout
phase_of (closes_tournament signer now) = some payout

-- A call of the operator or of the admin that another key signs fails with `Unauthorized`,
-- `finalize_tournament` and `close_tournament` included.
pub handle_unauthorized :
    (rt : Runtime) (c : Call) (w : World)
    → may_sign w.config c ≡ false
    → handle rt c w ≡ err unauthorized
unfolding handle execute may_sign update_config withdraw_fees close_registration close_reveal
    forfeit_unrevealed run_matches close_entry close_tournament finalize_tournament
handle_unauthorized rt (executes (updates signer p)) w h = grind arith
handle_unauthorized rt (executes (withdraws signer)) w h = grind arith
handle_unauthorized rt (executes (enters player c now bump)) w h = cc
handle_unauthorized rt (executes (reveals player s salt code now)) w h = cc
handle_unauthorized rt (executes (claims_refund player)) w h = cc
handle_unauthorized rt (executes (claims_payout player now)) w h = cc
handle_unauthorized rt (executes (closes_registration signer now)) w h = grind arith
handle_unauthorized rt (executes (closes_reveal signer now hashes entry player)) w h = grind arith
handle_unauthorized rt (executes (forfeits signer player now hashes)) w h = grind arith
handle_unauthorized rt (executes (runs signer passed)) w h = grind arith
handle_unauthorized rt (executes (closes_entry signer player now)) w h = grind arith
handle_unauthorized rt (executes (closes_tournament signer now)) w h = grind arith
handle_unauthorized rt (finalizes signer now bump) w h = grind arith

-- An accepted instruction is in its phase.
pub execute-phase :
    (rt : Runtime) (i : Instruction) (w w' : World) {s : TournamentState}
    → phase_of i ≡ some s
    → execute rt i w ≡ ok w'
    → w.tournament.state ≡ s
unfolding execute phase_of enter_tournament reveal_strategy claim_refund claim_payout
    close_registration close_reveal forfeit_unrevealed run_matches close_entry close_tournament
    open_entry
execute-phase rt (updates signer p) w w' h e = cc
execute-phase rt (withdraws signer) w w' h e = cc
execute-phase rt (enters player c now bump) w w' h e = grind arith
execute-phase rt (reveals player s salt code now) w w' h e = grind arith
execute-phase rt (claims_refund player) w w' h e = grind arith
execute-phase rt (claims_payout player now) w w' h e = grind arith
execute-phase rt (closes_registration signer now) w w' h e = grind arith
execute-phase rt (closes_reveal signer now hashes entry player) w w' h e = grind arith
execute-phase rt (forfeits signer player now hashes) w w' h e = grind arith
execute-phase rt (runs signer passed) w w' h e = grind arith
execute-phase rt (closes_entry signer player now) w w' h e = grind arith
execute-phase rt (closes_tournament signer now) w w' h e = grind arith

-- The phase of a call.
unfoldable pub call_phase : Call → Option TournamentState
call_phase (executes i) = phase_of i
call_phase (finalizes signer now bump) = some running

handle-phase :
    (rt : Runtime) (c : Call) (w w' : World) {s : TournamentState}
    → call_phase c ≡ some s
    → handle rt c w ≡ ok w'
    → w.tournament.state ≡ s
unfolding handle call_phase finalize_tournament
handle-phase rt (executes i) w w' h e = execute-phase rt i w w' h e
handle-phase rt (finalizes signer now bump) w w' h e = grind arith

-- A call in another phase than its own fails, `finalize_tournament` included: the state is as it was.
pub handle_out_of_phase :
    (rt : Runtime) (c : Call) (w : World) {s : TournamentState}
    → call_phase c ≡ some s
    → w.tournament.state ≢ s
    → (e : ArenaError) × (handle rt c w ≡ err e)
handle_out_of_phase rt c w h other = elim (Result-cases (handle rt c w)) [
  | inl (w', e) ↦ absurd (other (handle-phase rt c w w' h e))
  | inr (e, f) ↦ (e, f)
]
