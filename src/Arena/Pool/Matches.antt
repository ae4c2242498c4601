-- ===== src/Arena/Pool/Matches.antt =====
-- The pool of programs/prisoners-arena through `close_reveal`, the matches and the finalization.
use prisoners_arena_program.Base.{
  length, length-set, ap, ◌∙◌, ℕ, zero, suc, ◌%◌, ◌^◌, ◌<◌, ◌≡◌, refl, arith, Option, List, ok,
  ◌==◌, Bool-cases, inl, inr, ==→eq, >>=-eq-ok, add_u32,
}
use prisoners_arena_program.Base.Int.{ℤ}
use prisoners_arena_program.Arena.State.{Pubkey, Tournament}
use prisoners_arena_program.Arena.World.{Runtime, World, take_from_tournament}
use prisoners_arena_program.Arena.Lifecycle.{
  add_costs, close_reveal, even_out, refund_last, start_matches, draw_matches, skip_matches,
  sub_u64,
}
use prisoners_arena_program.Arena.Running.{run_one, run_batch, run_matches}
use prisoners_arena_program.Arena.Finalize.{
  collect_fees, reimburse, sweep, award, add_final_costs, NextTournament, finalize_tournament,
}
use prisoners_arena_program.Arena.Sound.Evening.{close_reveal-ok}
use prisoners_arena_program.Arena.Sound.Refunded.{refund_last-ok}
use prisoners_arena_program.Arena.Sound.Finalizing.{finalize_tournament-ok}
use prisoners_arena_program.Arena.Sound.Pairs.{play_pair-Pairs, run_one-ok}
use prisoners_arena_program.Arena.Sound.Playing.{run_matches-ok}
use prisoners_arena_program.Arena.Pool.{
  IsPooled, SamePool, SamePool-IsPooled, SamePool-trans, leaves-IsPooled,
}

add_costs-SamePool : (fee : ℕ) (t t' : Tournament) → add_costs fee t ≡ ok t' → SamePool t t'
unfolding add_costs
add_costs-SamePool fee t t' h = record {
  stake = grind arith;
  pool = grind arith;
  participants = grind arith;
  players = grind arith;
}

refund_last-pool :
    (entry player : Option Pubkey) (w w' : World)
    → refund_last entry player w ≡ ok w'
    → (w'.tournament.stake ≡ w.tournament.stake)
      × (w'.tournament.pool ≡ sub_u64 w.tournament.pool w.tournament.stake)
unfolding refund_last take_from_tournament
refund_last-pool entry player w w' h = (grind arith, grind arith)

even_out-IsPooled :
    (entry player : Option Pubkey) (w w' : World)
    → w.tournament.participant_count < 2 ^ 16
    → IsPooled w.tournament
    → even_out entry player w ≡ ok w'
    → IsPooled w'.tournament
unfolding even_out
even_out-IsPooled entry player w w' small v h =
    elim (Bool-cases (w.tournament.participant_count % 2 == 1)) [
      | inl odd ↦
          (let p : refund_last entry player w ≡ ok w' = grind arith in
            let (_, _, _, i, _, _, emptied, _, _, count, _, _, _, _, _) =
              refund_last-ok entry player w w' p in
            let (stake, pool) = refund_last-pool entry player w w' p in
            let one = ==→eq _ _ odd in
            leaves-IsPooled w.tournament w'.tournament stake (λ _ _. pool)
              (omega (arith, count, one, small))
              (ap length emptied ∙ length-set w.tournament.players i 0) v)
      | inr even ↦ (let same : w ≡ w' = grind arith in rw (← same) v)
    ]

start_matches-SamePool :
    (hashes : List ℕ) (w w' : World)
    → start_matches hashes w ≡ ok w'
    → SamePool w.tournament w'.tournament
unfolding start_matches draw_matches skip_matches
start_matches-SamePool hashes w w' h = record {
  stake = grind arith;
  pool = grind arith;
  participants = grind arith;
  players = grind arith;
}

pub close_reveal-IsPooled :
    (signer : Pubkey) (now : ℤ) (hashes : List ℕ) (entry player : Option Pubkey) (w w' : World)
    → IsPooled w.tournament
    → close_reveal signer now hashes entry player w ≡ ok w'
    → IsPooled w'.tournament
unfolding skip_matches
close_reveal-IsPooled signer now hashes entry player w w' v h =
    let (t, c, st, full, branch) = close_reveal-ok signer now hashes entry player w w' h in
    let same = add_costs-SamePool w.config.operator_tx_fee w.tournament t c in
    let v₁ = SamePool-IsPooled w.tournament t same v in
    let small : t.participant_count < 2 ^ 16 = omega (arith, v₁.within, v₁.few) in
    elim branch [
      | inl (z, e) ↦ rw e (record { few = v₁.few; within = v₁.within; pooled = v₁.pooled })
      | inr (w₁, p, q) ↦
          SamePool-IsPooled w₁.tournament w'.tournament (start_matches-SamePool hashes w₁ w' q)
            (even_out-IsPooled entry player (record w { tournament = t }) w₁ small v₁ p)
    ]

run_one-SamePool :
    (passed : List Pubkey) (i : ℕ) (w w' : World)
    → run_one passed i w ≡ ok w'
    → SamePool w.tournament w'.tournament
run_one-SamePool passed i w w' h = elim (run_one-ok passed i w w' h) [
  | inl e ↦ rw e (record { stake = refl; pool = refl; participants = refl; players = refl })
  | inr (x, y, a, b, _, f) ↦
      (let same = (play_pair-Pairs passed i x y a b w w' f).same in
        record {
          stake = same.stake;
          pool = same.pool;
          participants = same.participants;
          players = same.players;
        })
]

run_batch-SamePool :
    (left : ℕ) (passed : List Pubkey) (i : ℕ) (w w' : World)
    → run_batch left passed i w ≡ ok w'
    → SamePool w.tournament w'.tournament
unfolding run_batch
run_batch-SamePool zero passed i w w' h =
    let same : w ≡ w' = grind arith in
    rw (← same) (record { stake = refl; pool = refl; participants = refl; players = refl })
run_batch-SamePool (suc left) passed i w w' h =
    let (w₁, p, q) = >>=-eq-ok (run_one passed i w) (run_batch left passed (add_u32 i 1)) h in
    SamePool-trans w.tournament w₁.tournament w'.tournament (run_one-SamePool passed i w w₁ p)
      (run_batch-SamePool left passed (add_u32 i 1) w₁ w' q)

pub run_matches-SamePool :
    (signer : Pubkey) (passed : List Pubkey) (w w' : World)
    → run_matches signer passed w ≡ ok w'
    → SamePool w.tournament w'.tournament
run_matches-SamePool signer passed w w' h = elim (run_matches-ok signer passed w w' h) [
  | inl e ↦ rw e (record { stake = refl; pool = refl; participants = refl; players = refl })
  | inr (t, n, c, r) ↦
      SamePool-trans w.tournament t w'.tournament
        (add_costs-SamePool w.config.operator_tx_fee w.tournament t c)
        (run_batch-SamePool n passed t.matches_completed (record w { tournament = t }) w' r)
]

award-SamePool :
    (rt : Runtime) (operator : Pubkey) (now : ℤ) (w w' : World)
    → award rt operator now w ≡ ok w'
    → SamePool w.tournament w'.tournament
unfolding award collect_fees reimburse take_from_tournament
award-SamePool rt operator now w w' h = record {
  stake = grind arith;
  pool = grind arith;
  participants = grind arith;
  players = grind arith;
}

sweep-SamePool :
    (rt : Runtime) (operator : Pubkey) (now : ℤ) (w w' : World)
    → sweep rt operator now w ≡ ok w'
    → SamePool w.tournament w'.tournament
unfolding sweep collect_fees reimburse take_from_tournament
sweep-SamePool rt operator now w w' h = record {
  stake = grind arith;
  pool = grind arith;
  participants = grind arith;
  players = grind arith;
}

add_final_costs-SamePool :
    (fee : ℕ) (t t' : Tournament) → add_final_costs fee t ≡ ok t' → SamePool t t'
unfolding add_final_costs add_costs
add_final_costs-SamePool fee t t' h = record {
  stake = grind arith;
  pool = grind arith;
  participants = grind arith;
  players = grind arith;
}

pub finalize_tournament-SamePool :
    (rt : Runtime) (signer : Pubkey) (now : ℤ) (bump : ℕ) (w w' : World) (n : NextTournament)
    → finalize_tournament rt signer now bump w ≡ ok (w', n)
    → SamePool w.tournament w'.tournament
finalize_tournament-SamePool rt signer now bump w w' n h =
    let (st, w₀, w₂, t, paid, costs, branch, et, ec, ee, _) =
      finalize_tournament-ok rt signer now bump w w' n h in
    let before = add_final_costs-SamePool w.config.operator_tx_fee w.tournament t costs in
    rw et (
      SamePool-trans w.tournament t w₂.tournament before (elim branch [
        | inl e ↦ sweep-SamePool rt signer now (record w₀ { tournament = t }) w₂ e
        | inr e ↦ award-SamePool rt signer now (record w₀ { tournament = t }) w₂ e
      ]))
