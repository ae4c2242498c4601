-- ===== src/Arena/Phases.antt =====
-- The phases of a tournament of programs/prisoners-arena: registration, reveal, running, payout.
use prisoners_arena_program.Base.{
  ℕ, zero, suc, ◌≤◌, ◌≡◌, arith, Option, List, [], ◌∷◌, ok, err, >>=-eq-ok, Result-cases, inl, inr,
  add_u32, sub_u32, min,
}
use prisoners_arena_program.Base.Int.{ℤ}
use prisoners_arena_program.Arena.Error.{Outcome}
use prisoners_arena_program.Arena.State.{
  Pubkey, Tournament, TournamentState, registration, reveal, running, payout, matches_per_tx,
}
use prisoners_arena_program.Arena.World.{Runtime, World, take_from_tournament}
use prisoners_arena_program.Arena.Admin.{withdraw_fees}
use prisoners_arena_program.Arena.Player.{
  enter_tournament, open_entry, add_player, reveal_strategy, claim_refund, claim_payout,
  drop_player,
}
use prisoners_arena_program.Arena.Lifecycle.{
  add_costs, close_registration, close_reveal, start_matches, draw_matches, skip_matches,
  forfeit_unrevealed,
}
use prisoners_arena_program.Arena.Running.{run_matches, run_batch, run_one, play_pair}
use prisoners_arena_program.Arena.Finalize.{collect_fees}
use prisoners_arena_program.Arena.Closing.{settle, close_entry, close_tournament}
use prisoners_arena_program.Arena.Session.{
  Instruction, updates, withdraws, enters, reveals, claims_refund, claims_payout,
  closes_registration, closes_reveal, forfeits, runs, closes_entry, closes_tournament, execute,
  execute_all,
}

-- The phase as a number.
unfoldable pub rank : TournamentState → ℕ
rank registration = 0
rank reveal = 1
rank running = 2
rank payout = 3

abbrev pub phase : World → ℕ
phase w = rank w.tournament.state

-- The phase after a step, or `n` if it fails.
abbrev phase_in : ℕ → Outcome World → ℕ
phase_in n (ok w) = phase w
phase_in n (err e) = n

phase-settle :
    (rt : Runtime) (player : Pubkey) (now : ℤ) (w w' : World)
    → settle rt player now w ≡ ok w'
    → phase w' ≡ phase w
unfolding settle take_from_tournament collect_fees
phase-settle rt player now w w' h = grind arith

phase_in-run_one :
    (passed : List Pubkey) (i : ℕ) (w : World) → phase_in (phase w) (run_one passed i w) ≡ phase w
unfolding run_one play_pair
phase_in-run_one passed i w = grind arith

phase-run_batch :
    (left : ℕ) (passed : List Pubkey) (i : ℕ) (w w' : World)
    → run_batch left passed i w ≡ ok w'
    → phase w' ≡ phase w
unfolding run_batch
phase-run_batch zero passed i w w' h = grind arith
phase-run_batch (suc left) passed i w w' h =
    let (w₁, p, q) = >>=-eq-ok (run_one passed i w) (run_batch left passed (add_u32 i 1)) h in
    grind (arith, p, phase_in-run_one passed i w, phase-run_batch left passed (add_u32 i 1) w₁ w' q)

phase-add_costs :
    (fee : ℕ) (t t' : Tournament) → add_costs fee t ≡ ok t' → rank t'.state ≡ rank t.state
unfolding add_costs
phase-add_costs fee t t' h = grind arith

phase-run_matches :
    (signer : Pubkey) (passed : List Pubkey) (w w' : World)
    → run_matches signer passed w ≡ ok w'
    → phase w ≤ phase w'
unfolding run_matches
phase-run_matches signer passed w w' h =
    elim (Result-cases (add_costs w.config.operator_tx_fee w.tournament)) [
      | inr e ↦ grind arith
      | inl (t, e) ↦ grind (
        arith,
        phase-add_costs w.config.operator_tx_fee w.tournament t e,
        phase-run_batch
            (min matches_per_tx (sub_u32 w.tournament.matches_total w.tournament.matches_completed))
            passed t.matches_completed (record w { tournament = t }) w',
      )
    ]

phase-start_matches :
    (hashes : List ℕ) (w w' : World) → start_matches hashes w ≡ ok w' → phase w' ≡ 2
unfolding start_matches draw_matches skip_matches rank
phase-start_matches hashes w w' h = grind arith

pub phase-close_reveal :
    (signer : Pubkey) (now : ℤ) (hashes : List ℕ) (entry player : Option Pubkey) (w w' : World)
    → close_reveal signer now hashes entry player w ≡ ok w'
    → (phase w ≡ 1) × (phase w' ≡ 2)
unfolding close_reveal skip_matches rank
phase-close_reveal signer now hashes entry player w w' h = grind (arith, phase-start_matches)

phase-close_entry :
    (rt : Runtime) (signer player : Pubkey) (now : ℤ) (w w' : World)
    → close_entry rt signer player now w ≡ ok w'
    → phase w ≤ phase w'
unfolding close_entry
phase-close_entry rt signer player now w w' h = elim (Result-cases (settle rt player now w)) [
  | inr e ↦ grind arith
  | inl (w₁, e) ↦ (let same = phase-settle rt player now w w₁ e in grind arith)
]

-- An accepted instruction does not take the tournament back to an earlier phase.
pub phase-execute :
    (rt : Runtime) (i : Instruction) (w w' : World) → execute rt i w ≡ ok w' → phase w ≤ phase w'
unfolding execute
phase-execute rt (updates signer p) w w' h = grind arith
phase-execute rt (withdraws signer) w w' h = unfold withdraw_fees in grind arith
phase-execute rt (enters player c now bump) w w' h =
    unfold enter_tournament open_entry add_player in grind arith
phase-execute rt (reveals player s salt code now) w w' h = unfold reveal_strategy in grind arith
phase-execute rt (claims_refund player) w w' h =
    unfold claim_refund drop_player take_from_tournament in grind arith
phase-execute rt (claims_payout player now) w w' h =
    unfold claim_payout take_from_tournament in grind arith
phase-execute rt (closes_registration signer now) w w' h =
    unfold close_registration add_costs rank in grind arith
phase-execute rt (closes_reveal signer now hashes entry player) w w' h =
    omega (arith, phase-close_reveal signer now hashes entry player w w' h)
phase-execute rt (forfeits signer player now hashes) w w' h =
    unfold forfeit_unrevealed add_costs in grind arith
phase-execute rt (runs signer passed) w w' h = phase-run_matches signer passed w w' h
phase-execute rt (closes_entry signer player now) w w' h =
    phase-close_entry rt signer player now w w' h
phase-execute rt (closes_tournament signer now) w w' h = unfold close_tournament in grind arith

-- No sequence of accepted instructions, `finalize_tournament` not among them, takes the tournament
-- back to an earlier phase, in the order registration, reveal, running, payout.
pub phase-execute_all :
    (rt : Runtime) (is : List Instruction) (w w' : World)
    → execute_all rt is w ≡ ok w'
    → rank w.tournament.state ≤ rank w'.tournament.state
unfolding execute_all
phase-execute_all rt [] w w' h = grind arith
phase-execute_all rt (i ∷ is) w w' h =
    let (w₁, p, q) = >>=-eq-ok (execute rt i w) (execute_all rt is) h in
    let first = phase-execute rt i w w₁ p in
    let others = phase-execute_all rt is w₁ w' q in omega arith
