-- ===== src/Arena/Finishing/Payments.antt =====
-- The payments of `finalize_tournament` of programs/prisoners-arena, and when each is accepted.
use prisoners_arena_program.Base.{
  ℕ, ◌+◌, ◌-◌, ◌*◌, ◌/◌, ◌^◌, ◌≤◌, ◌<◌, ◌≡◌, refl, arith, false, some, List, [], ◌∷◌, ok, length,
  min, ◌==◌, if◌then◌else◌, Result-cases, ok-ne-err, inl, inr,
}
use prisoners_arena_program.Pairing.Roots.Laws.{mul_mono_both}
use prisoners_arena_program.Arena.State.{Pubkey, Tournament}
use prisoners_arena_program.Arena.Ledger.{checked_sub}
use prisoners_arena_program.Arena.World.{Runtime, World, spare, checked_u64, take_from_tournament}
use prisoners_arena_program.Arena.Finalize.{
  active_scores, count_from, winning_score, target_winners, collect_fees, reimburse, house_fee,
  distributable,
}
use prisoners_arena_program.Arena.Winners.{winning_score-place}

pub checked_u64-fits : (n : ℕ) → n < 2 ^ 64 → checked_u64 n ≡ some n
unfolding checked_u64
checked_u64-fits n h = ground arith

pub active_scores-total :
    (ks : List Pubkey) (ss : List ℕ)
    → length ss ≡ length ks
    → (scores : List ℕ) × (active_scores ks ss ≡ ok scores)
unfolding active_scores
active_scores-total [] [] l = ([], refl)
active_scores-total [] (s ∷ ss) l = absurd (omega arith)
active_scores-total (k ∷ ks) [] l = absurd (omega arith)
active_scores-total (k ∷ ks) (s ∷ ss) l =
    let (rest, e) = active_scores-total ks ss (omega arith) in
    ((if k == 0 then rest else s ∷ rest), rw e refl)

pub take-accepted :
    (amount : ℕ) (w : World)
    → amount ≤ w.tournament_lamports
    → take_from_tournament amount w
      ≡ ok (record w { tournament_lamports = w.tournament_lamports - amount })
unfolding take_from_tournament checked_sub
take-accepted amount w h = ground arith

-- Fees that fit and that the account has are collected.
pub collect_fees-accepted :
    (amount : ℕ) (w : World)
    → amount ≤ w.tournament_lamports
    → w.config.accumulated_fees + amount < 2 ^ 64
    → (w' : World) × (collect_fees amount w ≡ ok w')
unfolding collect_fees
collect_fees-accepted amount w enough fits =
    let fees = w.config.accumulated_fees + amount in
    let paying = record w { config = record w.config { accumulated_fees = fees } } in
    elim (Result-cases (collect_fees amount w)) [
      | inl done ↦ done
      | inr (e, h) ↦
          absurd
            (ok-ne-err (rw (checked_u64-fits fees fits, take-accepted amount paying enough) at h))
    ]

-- The operator is reimbursed whatever the costs are.
pub reimburse-accepted :
    (rt : Runtime) (operator : Pubkey) (costs : ℕ) (w : World)
    → (w' : World) × (reimburse rt operator costs w ≡ ok w')
unfolding reimburse
reimburse-accepted rt operator costs w = elim (Result-cases (reimburse rt operator costs w)) [
  | inl done ↦ done
  | inr (e, h) ↦
      absurd (let no = rw (take-accepted (min costs (spare rt w)) w (omega arith)) at h in cc)
]

pub house_fee-accepted :
    (t : Tournament)
    → t.pool * t.house_fee_bps < 2 ^ 64
    → house_fee t ≡ ok (t.pool * t.house_fee_bps / 10000)
unfolding house_fee
house_fee-accepted t product = rw (checked_u64-fits (t.pool * t.house_fee_bps) product) refl

pub some_winners :
    (scores : List ℕ) (n : ℕ)
    → length scores ≡ n
    → 1 ≤ n
    → (count_from (winning_score n scores) scores == 0) ≡ false
unfolding target_winners
some_winners scores n e h =
    let (many, _) = winning_score-place scores (omega arith) in
    let several : 1 ≤ count_from (winning_score (length scores) scores) scores =
      omega (arith, many) in
    rw (← e) (ground arith)

pub fee_le : (pool bps : ℕ) → bps ≤ 10000 → pool * bps / 10000 ≤ pool
fee_le pool bps h = omega (arith, mul_mono_both pool bps pool 10000 (omega arith) h)

pub distributable-le :
    (rt : Runtime) (fee : ℕ) (w : World) → distributable rt fee w ≤ w.tournament.pool - fee
unfolding distributable
distributable-le rt fee w = omega arith
