-- ===== src/Arena/Solvency.antt =====
-- Whether the tournament's account of programs/prisoners-arena covers the shares of the winners.
use prisoners_arena_program.Base.{
  ℕ, ◌+◌, ◌-◌, ◌*◌, ◌/◌, ◌≤◌, ◌≡◌, arith, ok, min, Result-cases, inl, inr, List, length, [], ◌∷◌,
  length-append, ap, ◌∙◌,
}
use native.Mathlib.Nat.{div-mul-le_self}
use prisoners_arena_program.Base.Int.{ℤ}
use prisoners_arena_program.Arena.State.{Pubkey, Tournament, data_len, base_space, bytes_per_player}
use prisoners_arena_program.Arena.Ledger.{checked_sub}
use prisoners_arena_program.Arena.World.{Runtime, World, spare, take_from_tournament, checked_u64}
use prisoners_arena_program.Arena.Finalize.{
  award, active_scores, count_from, winning_score, house_fee, distributable, collect_fees,
  reimburse,
}
use prisoners_arena_program.Arena.Player.{enter_tournament, open_entry, add_player}

-- The arithmetic of the payments of an account with `lamports`, where the fees and the costs are
-- taken off the pool and `rent` limits what is handed out.
covered_after :
    (lamports rent pool fee costs winners : ℕ)
    → pool ≤ lamports
    → let raw = min (pool - fee - costs) (lamports - rent) in
      let rest = lamports - (fee + (raw - raw / winners * winners)) in
      raw / winners * winners ≤ rest - min costs (rest - rent)
covered_after lamports rent pool fee costs winners covered =
    let raw : ℕ = min (pool - fee - costs) (lamports - rent) in
    omega (arith, div-mul-le_self raw winners)

pub collect_fees-ok :
    (amount : ℕ) (w w' : World)
    → collect_fees amount w ≡ ok w'
    → (w'.tournament ≡ w.tournament) × (w'.tournament_lamports ≡ w.tournament_lamports - amount)
unfolding collect_fees take_from_tournament checked_sub
collect_fees-ok amount w w' h = (grind arith, grind arith)

pub reimburse-ok :
    (rt : Runtime) (operator : Pubkey) (costs : ℕ) (w w' : World)
    → reimburse rt operator costs w ≡ ok w'
    → (w'.tournament ≡ w.tournament)
      × (w'.tournament_lamports ≡ w.tournament_lamports - min costs (spare rt w))
unfolding reimburse take_from_tournament checked_sub
reimburse-ok rt operator costs w w' h = (grind arith, grind arith)

-- The payments of `award`, and what it leaves for the winners.
award-steps :
    (rt : Runtime) (operator : Pubkey) (now : ℤ) (w w' : World)
    → award rt operator now w ≡ ok w'
    → (fee winners : ℕ) × (w₁ w₂ : World) × (let raw = distributable rt fee w in
        (collect_fees (fee + (raw - raw / winners * winners)) w ≡ ok w₁)
        × (reimburse rt operator w.tournament.operator_costs w₁ ≡ ok w₂)
        × (w'.tournament.winner_pool ≡ raw / winners * winners)
        × (w'.tournament.players ≡ w₂.tournament.players)
        × (w'.tournament_lamports ≡ w₂.tournament_lamports))
unfolding award checked_u64
award-steps rt operator now w w' h =
    elim (Result-cases (active_scores w.tournament.players w.tournament.scores)) [
      | inr e ↦ absurd (grind arith)
      | inl (scores, e) ↦ elim (Result-cases (house_fee w.tournament)) [
        | inr e₂ ↦ absurd (grind arith)
        | inl (fee, e₂) ↦
            (let winners =
                count_from (winning_score w.tournament.participant_count scores) scores in
              let raw = distributable rt fee w in
              elim (Result-cases (collect_fees (fee + (raw - raw / winners * winners)) w)) [
                | inr e₃ ↦ absurd (grind arith)
                | inl (w₁, e₃) ↦
                    elim (Result-cases (reimburse rt operator w.tournament.operator_costs w₁)) [
                      | inr e₄ ↦ absurd (grind arith)
                      | inl (w₂, e₄) ↦
                          (fee, winners, w₁, w₂, (e₃, e₄, grind arith, grind arith, grind arith))
                    ]
              ])
      ]
    ]

pub data_len-players : (t t' : Tournament) → t'.players ≡ t.players → data_len t' ≡ data_len t
unfolding data_len
data_len-players t t' h = ap (λ xs. base_space + length xs * bytes_per_player) h

-- Where the tournament's account holds the pool, it still holds the winners' pool after the fees and
-- the operator's costs are paid.
pub award_solvent :
    (rt : Runtime) (operator : Pubkey) (now : ℤ) (w w' : World)
    → w.tournament.pool ≤ w.tournament_lamports
    → award rt operator now w ≡ ok w'
    → w'.tournament.winner_pool ≤ w'.tournament_lamports
unfolding distributable
award_solvent rt operator now w w' covered h =
    let (fee, winners, w₁, w₂, (p, q, pool, ks, left)) = award-steps rt operator now w w' h in
    let (t₁, l₁) = collect_fees-ok _ w w₁ p in
    let (t₂, l₂) = reimburse-ok rt operator w.tournament.operator_costs w₁ w₂ q in
    let kept₁ = ap rt.minimum_balance (ap data_len t₁) in
    omega (
      arith,
      pool,
      left,
      l₂,
      l₁,
      kept₁,
      covered_after w.tournament_lamports (rt.minimum_balance (data_len w.tournament))
          w.tournament.pool fee w.tournament.operator_costs winners covered,
    )

-- Anchor's charge for an account that grows: what it lacks to the rent of its new length.
abbrev pub ChargesMissingRent : Runtime → Type 0
ChargesMissingRent rt =
    (len lamports : ℕ) → rt.realloc_charge len lamports ≡ rt.minimum_balance len - lamports

enter_tournament-lamports :
    (rt : Runtime) (player : Pubkey) (c : List ℕ) (now : ℤ) (bump : ℕ) (w w' : World)
    → enter_tournament rt player c now bump w ≡ ok w'
    → (w'.tournament ≡ add_player player w.tournament)
      × (w'.tournament_lamports
          ≡ w.tournament_lamports
            + rt.realloc_charge
                (base_space + (length w.tournament.players + 1) * bytes_per_player)
                w.tournament_lamports
            + w.tournament.stake)
unfolding enter_tournament open_entry
enter_tournament-lamports rt player c now bump w w' h = (grind arith, grind arith)

data_len-add_player :
    (player : Pubkey) (t : Tournament)
    → data_len (add_player player t) ≡ base_space + (length t.players + 1) * bytes_per_player
unfolding data_len add_player
data_len-add_player player t =
    ap (λ n. base_space + n * bytes_per_player) (length-append t.players (player ∷ []))

-- Where Anchor charges what is missing to the rent, and the account's lamports, the stakes included,
-- already make up the rent of its new length: when a player enters, what the account holds on top of
-- its rent grows by the stake less the growth of the rent.
pub spare-enter_tournament :
    (rt : Runtime) (player : Pubkey) (c : List ℕ) (now : ℤ) (bump : ℕ) (w w' : World)
    → ChargesMissingRent rt
    → rt.minimum_balance (data_len w.tournament) ≤ rt.minimum_balance (data_len w'.tournament)
    → rt.minimum_balance (data_len w'.tournament) ≤ w.tournament_lamports
    → enter_tournament rt player c now bump w ≡ ok w'
    → spare rt w'
        + (rt.minimum_balance (data_len w'.tournament) - rt.minimum_balance (data_len w.tournament))
      ≡ spare rt w + w.tournament.stake
spare-enter_tournament rt player c now bump w w' anchor longer rich h =
    let (t, l) = enter_tournament-lamports rt player c now bump w w' h in
    let len = base_space + (length w.tournament.players + 1) * bytes_per_player in
    let same = ap rt.minimum_balance (ap data_len t ∙ data_len-add_player player w.tournament) in
    omega (arith, l, anchor len w.tournament_lamports, same, longer, rich)
