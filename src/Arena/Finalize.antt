-- ===== src/Arena/Finalize.antt =====
-- programs/prisoners-arena/src/instructions/tournament.rs: `finalize_tournament`.
use prisoners_arena_program.Base.{
  ℕ, suc, ◌+◌, ◌-◌, ◌*◌, ◌/◌, not, List, [], ◌∷◌, ok, err, require, ok_or, ◌>>=◌, ◌>>◌, leb, ◌==◌,
  if◌then◌else◌, get_or, add_u32, min, max,
}
use prisoners_arena_program.Base.Int.{ℤ, add_i64}
use prisoners_arena_program.Pairing.Counts.{div_ceil}
use prisoners_arena_program.Arena.Error.{
  Outcome, invalid_state, overflow, unauthorized, matches_incomplete, panicked,
}
use prisoners_arena_program.Arena.State.{
  Pubkey, is_default, Tournament, running, payout, same_state, base_space, new_tournament,
}
use prisoners_arena_program.Arena.World.{
  Runtime, World, checked_u64, take_from_tournament, pay_wallet, pay_config, spare, charge,
}
use prisoners_arena_program.Arena.Lifecycle.{add_costs}

-- The scores of the players who are not refunded.
unfoldable pub active_scores : List Pubkey → List ℕ → Outcome (List ℕ)
active_scores ks [] = ok []
active_scores [] (s ∷ ss) = err panicked
active_scores (k ∷ ks) (s ∷ ss) = do
  rest ← active_scores ks ss
  ok (if is_default k then rest else s ∷ rest)

-- `sorted_scores.sort_by(|a, b| b.cmp(a))`
unfoldable pub insert_desc : ℕ → List ℕ → List ℕ
insert_desc x [] = x ∷ []
insert_desc x (y ∷ ys) = let rest = insert_desc x ys in if leb y x then x ∷ y ∷ ys else y ∷ rest

unfoldable pub sort_desc : List ℕ → List ℕ
sort_desc [] = []
sort_desc (x ∷ xs) = insert_desc x (sort_desc xs)

-- `filter(|s| s >= threshold).count()`
unfoldable pub count_from : ℕ → List ℕ → ℕ
count_from threshold [] = 0
count_from threshold (s ∷ ss) =
    let rest = count_from threshold ss in if leb threshold s then suc rest else rest

-- The top quarter of the players, at least one.
unfoldable pub target_winners : ℕ → ℕ
target_winners active = max 1 (div_ceil active 4)

-- `sorted_scores.get(target_winners - 1).copied().unwrap_or(0)`
unfoldable pub winning_score : ℕ → List ℕ → ℕ
winning_score active scores = get_or (sort_desc scores) (target_winners active - 1) 0

-- Lamports from the tournament's account to the config's, entered among the fees.
unfoldable pub collect_fees : ℕ → World → Outcome World
collect_fees amount w = do
  fees ← ok_or (checked_u64 (w.config.accumulated_fees + amount)) overflow
  w₁ ←
      take_from_tournament amount
        (record w { config = record w.config { accumulated_fees = fees } })
  ok (pay_config amount w₁)

-- `Reimburse operator`: at most what the tournament's account can spare.
unfoldable pub reimburse : Runtime → Pubkey → ℕ → World → Outcome World
reimburse rt operator costs w = do
  let amount = min costs (spare rt w)
  w₁ ← take_from_tournament amount w
  ok (pay_wallet operator amount w₁)

abbrev pub to_payout : ℤ → Tournament → Tournament
to_payout now t = record t { payout_started_at = now; state = payout }

-- The branch with no active player: the operator is reimbursed and the rest is swept.
unfoldable pub sweep : Runtime → Pubkey → ℤ → World → Outcome World
sweep rt operator now w = do
  let t = record w.tournament { winner_count = 0; winner_pool = 0; min_winning_score = 0 }
  w₁ ← reimburse rt operator t.operator_costs (record w { tournament = t })
  w₂ ← collect_fees (spare rt w₁) w₁
  ok (record w₂ { tournament = to_payout now w₂.tournament })

-- The house's part of the pool.
unfoldable pub house_fee : Tournament → Outcome ℕ
house_fee t = do
  product ← ok_or (checked_u64 (t.pool * t.house_fee_bps)) overflow
  ok (product / 10000)

-- `winner_pool_raw`: what is left of the pool for the winners, at most what can be spared.
unfoldable pub distributable : Runtime → ℕ → World → ℕ
distributable rt fee w = min (w.tournament.pool - fee - w.tournament.operator_costs) (spare rt w)

-- The branch with active players.
unfoldable pub award : Runtime → Pubkey → ℤ → World → Outcome World
award rt operator now w = do
  scores ← active_scores w.tournament.players w.tournament.scores
  let threshold = winning_score w.tournament.participant_count scores
  let winners = count_from threshold scores
  fee ← house_fee w.tournament
  require (not (winners == 0)) panicked
  let raw = distributable rt fee w
  let per_winner = raw / winners
  let dust = raw - per_winner * winners
  fee_total ← ok_or (checked_u64 (fee + dust)) overflow
  w₁ ← collect_fees fee_total w
  w₂ ← reimburse rt operator w.tournament.operator_costs w₁
  ok (record w₂ {
    tournament = to_payout now (record w₂.tournament {
      min_winning_score = threshold;
      winner_count = winners;
      winner_pool = per_winner * winners;
    });
  })

-- The account of the next tournament, and its lamports.
pub record NextTournament : Type 0 where
  pub tournament : Tournament
  pub lamports : ℕ

-- The costs of this transaction and of those to come, `close_entry` for each entry that remains and
-- `close_tournament`.
unfoldable pub add_final_costs : ℕ → Tournament → Outcome Tournament
add_final_costs fee t = do
  t₁ ← add_costs fee t
  later ← ok_or (checked_u64 ((t.entries_remaining + 1) * fee)) overflow
  add_costs later t₁

-- The next tournament's account is made at the operator's expense, before the handler.
unfoldable pub finalize_tournament :
    Runtime → Pubkey → ℤ → ℕ → World → Outcome (World × NextTournament)
finalize_tournament rt signer now bump w = do
  require (signer == w.config.operator) unauthorized
  let rent = rt.minimum_balance base_space
  w₀ ← charge signer rent w
  require (same_state w.tournament.state running) invalid_state
  require (leb w.tournament.matches_total w.tournament.matches_completed) matches_incomplete
  t ← add_final_costs w.config.operator_tx_fee w.tournament
  let w₁ = record w₀ { tournament = t }
  w₂ ← (if t.participant_count == 0 then sweep rt signer now w₁ else award rt signer now w₁)
  let id = add_u32 w₂.config.current_tournament_id 1
  let c = record w₂.config { current_tournament_id = id }
  ok (
    record w₂ { config = c },
    record {
      tournament =
          new_tournament id c.stake c.house_fee_bps c.matches_per_player c.registration_duration
            c.reveal_duration (add_i64 now c.registration_duration) bump;
      lamports = rent;
    },
  )
