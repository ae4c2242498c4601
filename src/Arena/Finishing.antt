-- ===== src/Arena/Finishing.antt =====
-- Whether `finalize_tournament` of programs/prisoners-arena is accepted.
mod Payments
use Payments.{
  checked_u64-fits, active_scores-total, take-accepted, collect_fees-accepted, reimburse-accepted,
  house_fee-accepted, some_winners, fee_le, distributable-le,
}
use prisoners_arena_program.Base.{
  ℕ, ◌+◌, ◌-◌, ◌*◌, ◌/◌, ◌^◌, ◌≤◌, ◌<◌, ◌≡◌, refl, arith, true, false, some, List, [], ◌∷◌, ok,
  length, min, leb, ◌==◌, if◌then◌else◌, Result-cases, ok-ne-err, inl, inr, sym, ◌∙◌, ap,
}
use prisoners_arena_program.Pairing.Roots.Laws.{mul_mono_both}
use native.Mathlib.Decide.{dec_le}
use prisoners_arena_program.Base.Int.{ℤ}
use prisoners_arena_program.Arena.State.{
  Pubkey, Tournament, running, same_state, base_space, data_len,
}
use prisoners_arena_program.Arena.Ledger.{Wallets, debit, checked_sub}
use prisoners_arena_program.Arena.World.{
  Runtime, World, spare, charge, checked_u64, take_from_tournament,
}
use prisoners_arena_program.Arena.Lifecycle.{add_costs}
use prisoners_arena_program.Arena.Finalize.{
  active_scores, count_from, winning_score, target_winners, collect_fees, reimburse, sweep,
  house_fee, distributable, award, add_final_costs, finalize_tournament, NextTournament,
}
use prisoners_arena_program.Arena.Winners.{winning_score-place, length-active_scores}
use prisoners_arena_program.Arena.Sound.{IsSound}
use prisoners_arena_program.Arena.Sound.Slots.{active}

-- With players, the awards are accepted where the amounts fit and the account holds the pool.
award-accepted :
    (rt : Runtime) (operator : Pubkey) (now : ℤ) (w : World)
    → length w.tournament.scores ≡ length w.tournament.players
    → w.tournament.participant_count ≡ active w.tournament.players
    → 1 ≤ w.tournament.participant_count
    → w.tournament.pool * w.tournament.house_fee_bps < 2 ^ 64
    → w.tournament.house_fee_bps ≤ 10000
    → w.tournament.pool ≤ w.tournament_lamports
    → w.config.accumulated_fees + w.tournament_lamports < 2 ^ 64
    → (w' : World) × (award rt operator now w ≡ ok w')
unfolding award
award-accepted rt operator now w l counted several product whole funded fits =
    let t = w.tournament in
    let (scores, e) = active_scores-total t.players t.scores l in
    let n : length scores ≡ t.participant_count =
      length-active_scores t.players t.scores scores l e ∙ sym counted in
    let winners = count_from (winning_score t.participant_count scores) scores in
    let some_winner = some_winners scores t.participant_count n several in
    let fee = t.pool * t.house_fee_bps / 10000 in
    let low = fee_le t.pool t.house_fee_bps whole in
    let e₂ : house_fee t ≡ ok fee = house_fee-accepted t product in
    let raw = distributable rt fee w in
    let total = fee + (raw - raw / winners * winners) in
    let most : total ≤ t.pool = omega (arith, low, distributable-le rt fee w) in
    let (w₁, e₃) = collect_fees-accepted total w (omega arith) (omega arith) in
    let (w₂, e₄) = reimburse-accepted rt operator t.operator_costs w₁ in
    elim (Result-cases (award rt operator now w)) [
      | inl done ↦ done
      | inr (x, h) ↦ absurd (
          let room : total < 2 ^ 64 = omega (arith, fits, most, funded) in
          ok-ne-err (rw (e, e₂, some_winner, checked_u64-fits total room, e₃, e₄) at h))
    ]

reimburse-keeps :
    (rt : Runtime) (operator : Pubkey) (costs : ℕ) (w w' : World)
    → reimburse rt operator costs w ≡ ok w'
    → (w'.config ≡ w.config) × (w'.tournament_lamports ≤ w.tournament_lamports)
unfolding reimburse take_from_tournament checked_sub
reimburse-keeps rt operator costs w w' h = (grind arith, grind arith)

-- Without players, what is left is collected.
sweep-accepted :
    (rt : Runtime) (operator : Pubkey) (now : ℤ) (w : World)
    → w.config.accumulated_fees + w.tournament_lamports < 2 ^ 64
    → (w' : World) × (sweep rt operator now w ≡ ok w')
unfolding sweep
sweep-accepted rt operator now w fits =
    let t = record w.tournament { winner_count = 0; winner_pool = 0; min_winning_score = 0 } in
    let (w₁, e₁) = reimburse-accepted rt operator t.operator_costs (record w { tournament = t }) in
    let (config, less) =
      reimburse-keeps rt operator t.operator_costs (record w { tournament = t }) w₁ e₁ in
    let room : w₁.config.accumulated_fees + spare rt w₁ < 2 ^ 64 =
      omega (arith, ap (λ c. c.accumulated_fees) config, less, fits) in
    let (w₂, e₂) = collect_fees-accepted (spare rt w₁) w₁ (omega arith) room in
    elim (Result-cases (sweep rt operator now w)) [
      | inl done ↦ done
      | inr (x, h) ↦ absurd (ok-ne-err (rw (e₁, e₂) at h))
    ]

add_final_costs-accepted :
    (fee : ℕ) (t : Tournament)
    → t.operator_costs + (t.entries_remaining + 2) * fee < 2 ^ 64
    → (costs : ℕ) × (add_final_costs fee t ≡ ok (record t { operator_costs = costs }))
unfolding add_final_costs add_costs
add_final_costs-accepted fee t fits =
    let later = (t.entries_remaining + 1) * fee in
    let split : (t.entries_remaining + 2) * fee ≡ later + fee = grind arith in
    let first = checked_u64-fits (t.operator_costs + fee) (omega (arith, split)) in
    let second = checked_u64-fits later (omega (arith, split)) in
    let third = checked_u64-fits (t.operator_costs + fee + later) (omega (arith, split)) in
    (t.operator_costs + fee + later, rw (first, second, third) refl)

-- Once the matches of a well-formed tournament are complete, the handler of the operator's
-- `finalize_tournament` is accepted, up to the `init` of the next address: where the operator can pay
-- the rent of the next tournament's account, the account holds the pool, the fee of the house is at
-- most the whole, and the operator's costs, the fee's product and the fees collected stay a u64.
pub finalize_tournament-accepted :
    (rt : Runtime) (now : ℤ) (bump : ℕ) (w : World) (wallets : Wallets)
    → IsSound w.tournament w.entries
    → w.tournament.state ≡ running
    → w.tournament.matches_total ≤ w.tournament.matches_completed
    → debit w.config.operator (rt.minimum_balance base_space) w.wallets ≡ some wallets
    → w.tournament.pool ≤ w.tournament_lamports
    → w.tournament.house_fee_bps ≤ 10000
    → w.tournament.operator_costs + (w.tournament.entries_remaining + 2) * w.config.operator_tx_fee
      < 2 ^ 64
    → w.tournament.pool * w.tournament.house_fee_bps < 2 ^ 64
    → w.config.accumulated_fees + w.tournament_lamports < 2 ^ 64
    → (w' : World) × (next : NextTournament) × (finalize_tournament rt w.config.operator now bump w
        ≡ ok (w', next))
unfolding finalize_tournament data_len
finalize_tournament-accepted rt now bump w wallets s running_now complete rent funded whole costs
      product fits =
    let (c, e₁) = add_final_costs-accepted w.config.operator_tx_fee w.tournament costs in
    let w₁ = record w {
      wallets = wallets;
      tournament = record w.tournament { operator_costs = c };
    } in
    let paid : charge w.config.operator (rt.minimum_balance base_space) w
        ≡ ok (record w { wallets = wallets }) =
      rw (charge, rent) refl in
    let self : (w.config.operator == w.config.operator) ≡ true = ground arith in
    let st : same_state w.tournament.state running ≡ true = rw running_now refl in
    let done : leb w.tournament.matches_total w.tournament.matches_completed ≡ true =
      ground arith in
    elim (Result-cases (finalize_tournament rt w.config.operator now bump w)) [
      | inl ((w', next), h) ↦ (w', next, h)
      | inr (x, h) ↦ elim (dec_le 1 w.tournament.participant_count) [
        | yes several ↦
            (let (w₂, e₂) =
                award-accepted rt w.config.operator now w₁ s.scores s.counted several product whole
                  funded fits in
              let some_left : (w.tournament.participant_count == 0) ≡ false = ground arith in
              absurd (ok-ne-err (rw (self, paid, st, done, e₁, some_left, e₂) at h)))
        | no empty ↦
            (let (w₂, e₂) = sweep-accepted rt w.config.operator now w₁ fits in
              let none_left : (w.tournament.participant_count == 0) ≡ true = ground arith in
              absurd (ok-ne-err (rw (self, paid, st, done, e₁, none_left, e₂) at h)))
      ]
    ]
