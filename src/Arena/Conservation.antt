-- ===== src/Arena/Conservation.antt =====
-- The lamports of the accounts of programs/prisoners-arena through an instruction.
use prisoners_arena_program.Base.{
  ℕ, zero, suc, ◌%◌, ◌≡◌, arith, Option, List, ok, ◌==◌, >>=-eq-ok, inl, inr, min, Bool-cases,
  add_u32, sub_u32, Result-cases,
}
use prisoners_arena_program.Base.Int.{ℤ}
use prisoners_arena_program.Arena.State.{matches_per_tx, Pubkey, Strategy}
use prisoners_arena_program.Arena.Ledger.{checked_sub, held-credit}
use prisoners_arena_program.Arena.World.{Runtime, World, take_from_tournament, total_lamports}
use prisoners_arena_program.Arena.Lamports.{
  find_entry-player, entry_lamports-remove_entry, entry_lamports-write_entry,
}
use prisoners_arena_program.Arena.Admin.{withdraw_fees}
use prisoners_arena_program.Arena.Player.{reveal_strategy, claim_refund, claim_payout}
use prisoners_arena_program.Arena.Lifecycle.{
  close_registration, close_reveal, refund_last, even_out, add_costs, start_matches,
  forfeit_unrevealed,
}
use prisoners_arena_program.Arena.Running.{run_matches, run_batch, run_one, play_pair}
use prisoners_arena_program.Arena.Finalize.{collect_fees, reimburse}
use prisoners_arena_program.Arena.Closing.{settle, close_tournament}

pub total_lamports-withdraw_fees :
    (rt : Runtime) (signer : Pubkey) (w w' : World)
    → withdraw_fees rt signer w ≡ ok w'
    → total_lamports w' ≡ total_lamports w
unfolding withdraw_fees checked_sub
total_lamports-withdraw_fees rt signer w w' h = grind (arith, held-credit)

pub total_lamports-close_tournament :
    (signer : Pubkey) (now : ℤ) (w w' : World)
    → close_tournament signer now w ≡ ok w'
    → total_lamports w' ≡ total_lamports w
unfolding close_tournament
total_lamports-close_tournament signer now w w' h = ground arith

pub total_lamports-claim_refund :
    (player : Pubkey) (w w' : World)
    → claim_refund player w ≡ ok w'
    → total_lamports w' ≡ total_lamports w
unfolding claim_refund take_from_tournament checked_sub
total_lamports-claim_refund player w w' h = grind (arith, entry_lamports-remove_entry, held-credit)

pub total_lamports-claim_payout :
    (player : Pubkey) (now : ℤ) (w w' : World)
    → claim_payout player now w ≡ ok w'
    → total_lamports w' ≡ total_lamports w
unfolding claim_payout take_from_tournament checked_sub
total_lamports-claim_payout player now w w' h =
    grind (arith, entry_lamports-remove_entry, held-credit)

pub total_lamports-close_registration :
    (signer : Pubkey) (now : ℤ) (w w' : World)
    → close_registration signer now w ≡ ok w'
    → total_lamports w' ≡ total_lamports w
unfolding close_registration
total_lamports-close_registration signer now w w' h = ground arith

pub total_lamports-reveal_strategy :
    (rt : Runtime) (player : Pubkey) (s : Strategy) (salt : List ℕ) (bytecode : Option (List ℕ))
    (now : ℤ) (w w' : World)
    → reveal_strategy rt player s salt bytecode now w ≡ ok w'
    → total_lamports w' ≡ total_lamports w
unfolding reveal_strategy
total_lamports-reveal_strategy rt player s salt bytecode now w w' h =
    grind (arith, entry_lamports-write_entry)

pub total_lamports-forfeit_unrevealed :
    (signer player : Pubkey) (now : ℤ) (hashes : List ℕ) (w w' : World)
    → forfeit_unrevealed signer player now hashes w ≡ ok w'
    → total_lamports w' ≡ total_lamports w
unfolding forfeit_unrevealed
total_lamports-forfeit_unrevealed signer player now hashes w w' h =
    grind (arith, entry_lamports-write_entry)

pub total_lamports-collect_fees :
    (amount : ℕ) (w w' : World)
    → collect_fees amount w ≡ ok w'
    → total_lamports w' ≡ total_lamports w
unfolding collect_fees take_from_tournament checked_sub
total_lamports-collect_fees amount w w' h = ground arith

total_lamports-reimburse :
    (rt : Runtime) (operator : Pubkey) (costs : ℕ) (w w' : World)
    → reimburse rt operator costs w ≡ ok w'
    → total_lamports w' ≡ total_lamports w
unfolding reimburse take_from_tournament checked_sub
total_lamports-reimburse rt operator costs w w' h = grind (arith, held-credit)

total_lamports-refund_last :
    (entry player : Option Pubkey) (w w' : World)
    → refund_last entry player w ≡ ok w'
    → total_lamports w' ≡ total_lamports w
unfolding refund_last take_from_tournament checked_sub
total_lamports-refund_last entry player w w' h =
    grind (arith, find_entry-player, entry_lamports-remove_entry, held-credit)

total_lamports-even_out :
    (entry player : Option Pubkey) (w w' : World)
    → even_out entry player w ≡ ok w'
    → total_lamports w' ≡ total_lamports w
unfolding even_out
total_lamports-even_out entry player w w' h =
    elim (Bool-cases (w.tournament.participant_count % 2 == 1)) [
      | inl e ↦ total_lamports-refund_last entry player w w' (grind arith)
      | inr e ↦ grind arith
    ]

total_lamports-start_matches :
    (hashes : List ℕ) (w w' : World)
    → start_matches hashes w ≡ ok w'
    → total_lamports w' ≡ total_lamports w
unfolding start_matches
total_lamports-start_matches hashes w w' h = grind arith

pub total_lamports-settle :
    (rt : Runtime) (player : Pubkey) (now : ℤ) (w w' : World)
    → settle rt player now w ≡ ok w'
    → total_lamports w' ≡ total_lamports w
unfolding settle take_from_tournament checked_sub
total_lamports-settle rt player now w w' h = grind (arith, held-credit, total_lamports-collect_fees)

total_lamports-play_pair :
    (passed : List Pubkey) (match_index idx_a idx_b : ℕ) (a b : Pubkey) (w w' : World)
    → play_pair passed match_index idx_a idx_b a b w ≡ ok w'
    → total_lamports w' ≡ total_lamports w
unfolding play_pair
total_lamports-play_pair passed match_index idx_a idx_b a b w w' h =
    grind (arith, entry_lamports-write_entry)

total_lamports-run_one :
    (passed : List Pubkey) (match_index : ℕ) (w w' : World)
    → run_one passed match_index w ≡ ok w'
    → total_lamports w' ≡ total_lamports w
unfolding run_one
total_lamports-run_one passed match_index w w' h = grind (arith, total_lamports-play_pair)

pub total_lamports-close_reveal :
    (signer : Pubkey) (now : ℤ) (hashes : List ℕ) (entry player : Option Pubkey) (w w' : World)
    → close_reveal signer now hashes entry player w ≡ ok w'
    → total_lamports w' ≡ total_lamports w
unfolding close_reveal
total_lamports-close_reveal signer now hashes entry player w w' h =
    elim (Result-cases (add_costs w.config.operator_tx_fee w.tournament)) [
      | inr e ↦ grind arith
      | inl (t, e) ↦ elim (Result-cases (even_out entry player (record w { tournament = t }))) [
        | inr e₂ ↦ grind arith
        | inl (w₂, e₂) ↦ grind (
          arith,
          total_lamports-even_out entry player (record w { tournament = t }) w₂ e₂,
          total_lamports-start_matches hashes w₂ w',
        )
      ]
    ]

total_lamports-run_batch :
    (left : ℕ) (passed : List Pubkey) (match_index : ℕ) (w w' : World)
    → run_batch left passed match_index w ≡ ok w'
    → total_lamports w' ≡ total_lamports w
unfolding run_batch
total_lamports-run_batch zero passed i w w' h = grind arith
total_lamports-run_batch (suc left) passed i w w' h =
    let (w₁, p, q) = >>=-eq-ok (run_one passed i w) (run_batch left passed (add_u32 i 1)) h in
    omega (
      arith,
      total_lamports-run_one passed i w w₁ p,
      total_lamports-run_batch left passed (add_u32 i 1) w₁ w' q,
    )

pub total_lamports-run_matches :
    (signer : Pubkey) (passed : List Pubkey) (w w' : World)
    → run_matches signer passed w ≡ ok w'
    → total_lamports w' ≡ total_lamports w
unfolding run_matches
total_lamports-run_matches signer passed w w' h =
    elim (Result-cases (add_costs w.config.operator_tx_fee w.tournament)) [
      | inr e ↦ grind arith
      | inl (t, e) ↦ grind (
        arith,
        total_lamports-run_batch
            (min matches_per_tx (sub_u32 w.tournament.matches_total w.tournament.matches_completed))
            passed t.matches_completed (record w { tournament = t }) w',
      )
    ]
