-- ===== src/Arena/Session.antt =====
-- Sequences of instructions of programs/prisoners-arena on one tournament.
use prisoners_arena_program.Base.{ℕ, ◌≡◌, arith, Option, List, [], ◌∷◌, ok, >>=-eq-ok, ◌>>=◌, ◌∙◌}
use prisoners_arena_program.Base.Int.{ℤ}
use prisoners_arena_program.Arena.Error.{Outcome}
use prisoners_arena_program.Arena.State.{Pubkey, Strategy}
use prisoners_arena_program.Arena.World.{Runtime, World, total_lamports}
use prisoners_arena_program.Arena.Admin.{UpdateConfigParams, update_config, withdraw_fees}
use prisoners_arena_program.Arena.Player.{
  enter_tournament, reveal_strategy, claim_refund, claim_payout,
}
use prisoners_arena_program.Arena.Lifecycle.{close_registration, close_reveal, forfeit_unrevealed}
use prisoners_arena_program.Arena.Running.{run_matches}
use prisoners_arena_program.Arena.Closing.{close_entry, close_tournament}
use prisoners_arena_program.Arena.Conservation.{
  total_lamports-withdraw_fees, total_lamports-close_tournament, total_lamports-claim_refund,
  total_lamports-claim_payout, total_lamports-close_registration, total_lamports-reveal_strategy,
  total_lamports-forfeit_unrevealed, total_lamports-close_reveal, total_lamports-run_matches,
}
use prisoners_arena_program.Arena.Settlement.{
  total_lamports-close_entry, total_lamports-enter_tournament,
}

-- An instruction with its signer, the clock and its arguments. `finalize_tournament`, which makes
-- another account, is not among them.
pub data Instruction : Type 0 where
  updates : Pubkey → UpdateConfigParams → Instruction
  withdraws : Pubkey → Instruction
  enters : Pubkey → List ℕ → ℤ → ℕ → Instruction
  reveals : Pubkey → Strategy → List ℕ → Option (List ℕ) → ℤ → Instruction
  claims_refund : Pubkey → Instruction
  claims_payout : Pubkey → ℤ → Instruction
  closes_registration : Pubkey → ℤ → Instruction
  closes_reveal : Pubkey → ℤ → List ℕ → Option Pubkey → Option Pubkey → Instruction
  forfeits : Pubkey → Pubkey → ℤ → List ℕ → Instruction
  runs : Pubkey → List Pubkey → Instruction
  closes_entry : Pubkey → Pubkey → ℤ → Instruction
  closes_tournament : Pubkey → ℤ → Instruction

module _ (rt : Runtime) where
  unfoldable pub execute : Instruction → World → Outcome World
  execute (updates signer p) w = do
    c ← update_config signer p w.config
    ok (record w { config = c })
  execute (withdraws signer) w = withdraw_fees rt signer w
  execute (enters player commitment now bump) w = enter_tournament rt player commitment now bump w
  execute (reveals player s salt code now) w = reveal_strategy rt player s salt code now w
  execute (claims_refund player) w = claim_refund player w
  execute (claims_payout player now) w = claim_payout player now w
  execute (closes_registration signer now) w = close_registration signer now w
  execute (closes_reveal signer now hashes entry player) w =
      close_reveal signer now hashes entry player w
  execute (forfeits signer player now hashes) w = forfeit_unrevealed signer player now hashes w
  execute (runs signer passed) w = run_matches signer passed w
  execute (closes_entry signer player now) w = close_entry rt signer player now w
  execute (closes_tournament signer now) w = close_tournament signer now w

  unfoldable pub execute_all : List Instruction → World → Outcome World
  execute_all [] w = ok w
  execute_all (i ∷ is) w = execute i w >>= execute_all is

  pub total_lamports-execute :
      (i : Instruction) (w w' : World) → execute i w ≡ ok w' → total_lamports w' ≡ total_lamports w
  unfolding execute
  total_lamports-execute (updates signer p) w w' h = grind arith
  total_lamports-execute (withdraws signer) w w' h = total_lamports-withdraw_fees rt signer w w' h
  total_lamports-execute (enters player c now bump) w w' h =
      total_lamports-enter_tournament rt player c now bump w w' h
  total_lamports-execute (reveals player s salt code now) w w' h =
      total_lamports-reveal_strategy rt player s salt code now w w' h
  total_lamports-execute (claims_refund player) w w' h = total_lamports-claim_refund player w w' h
  total_lamports-execute (claims_payout player now) w w' h =
      total_lamports-claim_payout player now w w' h
  total_lamports-execute (closes_registration signer now) w w' h =
      total_lamports-close_registration signer now w w' h
  total_lamports-execute (closes_reveal signer now hashes entry player) w w' h =
      total_lamports-close_reveal signer now hashes entry player w w' h
  total_lamports-execute (forfeits signer player now hashes) w w' h =
      total_lamports-forfeit_unrevealed signer player now hashes w w' h
  total_lamports-execute (runs signer passed) w w' h =
      total_lamports-run_matches signer passed w w' h
  total_lamports-execute (closes_entry signer player now) w w' h =
      total_lamports-close_entry rt signer player now w w' h
  total_lamports-execute (closes_tournament signer now) w w' h =
      total_lamports-close_tournament signer now w w' h

  -- Any sequence of instructions that are all accepted, without `finalize_tournament`, leaves the sum
  -- of the lamports of the config, the tournament, the entries and the wallets as it was.
  pub total_lamports-execute_all :
      (is : List Instruction) (w w' : World)
      → execute_all is w ≡ ok w'
      → total_lamports w' ≡ total_lamports w
  unfolding execute_all
  total_lamports-execute_all [] w w' h = grind arith
  total_lamports-execute_all (i ∷ is) w w' h =
      let (w₁, p, q) = >>=-eq-ok (execute i w) (execute_all is) h in
      total_lamports-execute_all is w₁ w' q ∙ total_lamports-execute i w w₁ p
