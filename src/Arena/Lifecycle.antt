-- ===== src/Arena/Lifecycle.antt =====
-- programs/prisoners-arena/src/instructions/tournament.rs: the operator's instructions that end the
-- registration and the reveal phase. The signer, the clock and the bytes of the slot hashes are
-- arguments.
use prisoners_arena_program.Base.{
  ℕ, zero, suc, ◌+◌, ◌-◌, ◌/◌, ◌%◌, ◌^◌, true, not, ◌&&◌, Option, none, some, List, [], ◌∷◌, ok,
  require, ok_or, ◌>>=◌, ◌>>◌, leb, ◌==◌, if◌then◌else◌, length, take, drop, get_or, add_u32,
  sub_u32, bit_xor,
}
use prisoners_arena_program.Base.Int.{ℤ, leb_ℤ, ltb_ℤ, add_i64}
use prisoners_arena_program.Pairing.{calculate_match_count}
use prisoners_arena_program.Pairing.Counts.{effective_k}
use prisoners_arena_program.Arena.Error.{
  Outcome, invalid_state, overflow, unauthorized, registration_open, min_participants_not_reached,
  reveal_period_not_ended, unprocessed_forfeits, invalid_entry_account, slot_hash_unavailable,
  already_revealed,
}
use prisoners_arena_program.Arena.State.{
  Pubkey, default_key, is_default, Tournament, registration, reveal, running, same_state,
  strategy_index, from_index, no_strategy,
}
use prisoners_arena_program.Arena.World.{
  World, write_entry, opened, close_to, assign, checked_u64, take_from_tournament, pay_wallet,
}

-- `tournament.operator_costs.checked_add(amount)`
unfoldable pub add_costs : ℕ → Tournament → Outcome Tournament
add_costs amount t = do
  costs ← ok_or (checked_u64 (t.operator_costs + amount)) overflow
  ok (record t { operator_costs = costs })

unfoldable pub close_registration : Pubkey → ℤ → World → Outcome World
close_registration signer now w = do
  require (signer == w.config.operator) unauthorized
  require (same_state w.tournament.state registration) invalid_state
  require (leb_ℤ w.tournament.registration_ends now) registration_open
  require (leb w.config.min_participants w.tournament.participant_count)
      min_participants_not_reached
  t ← add_costs w.config.operator_tx_fee w.tournament
  ok (record w {
    tournament = record t { state = reveal; reveal_ends = add_i64 now t.reveal_duration };
  })

-- `players.iter().rposition(|pk| *pk != Pubkey::default())`
unfoldable pub last_active : List Pubkey → Option ℕ
last_active [] = none
last_active (k ∷ ks) =
    let rest = last_active ks in
    elim rest [ some i ↦ some (suc i) | none ↦ (if is_default k then none else some 0) ]

-- `-=` on `u64`
abbrev pub sub_u64 : ℕ → ℕ → ℕ
sub_u64 a b = (a + 2 ^ 64 - b) % 2 ^ 64

-- The slot of the last active player is emptied; the wallet gets the stake and the lamports of the
-- entry, which is closed.
unfoldable pub refund_last : Option Pubkey → Option Pubkey → World → Outcome World
refund_last refund_entry refund_player w = do
  index ← ok_or (last_active w.tournament.players) invalid_state
  let last_player = get_or w.tournament.players index default_key
  entry_of ← ok_or refund_entry invalid_entry_account
  a ← opened entry_of w
  player ← ok_or refund_player invalid_entry_account
  require (a.entry.player == last_player && player == last_player) invalid_entry_account
  require (a.entry.index == index % 2 ^ 32) invalid_entry_account
  w₁ ← take_from_tournament w.tournament.stake w
  players ← assign w.tournament.players index default_key
  strategies ← assign w.tournament.strategies index no_strategy
  let t = record w₁.tournament {
    players = players;
    strategies = strategies;
    participant_count = sub_u32 w.tournament.participant_count 1;
    reveals_completed = sub_u32 w.tournament.reveals_completed 1;
    pool = sub_u64 w.tournament.pool w.tournament.stake;
    entries_remaining = sub_u32 w.tournament.entries_remaining 1;
  }
  ok (
      close_to player a.lamports
        (pay_wallet player w.tournament.stake (record w₁ { tournament = t })))

-- The bytes of the tournament's id, lowest first, are mixed into the first bytes of the seed; the
-- first argument counts those left.
unfoldable pub mix_id : ℕ → ℕ → List ℕ → List ℕ
mix_id zero id seed = seed
mix_id (suc n) id [] = []
mix_id (suc n) id (b ∷ seed) = bit_xor b (id % 256) ∷ mix_id n (id / 256) seed

-- No player is left: no match is to be run.
unfoldable pub skip_matches : Tournament → Tournament
skip_matches t = record t { state = running; matches_total = 0; matches_completed = 0 }

-- The seed, the number of matches of each player, the tier and the number of matches.
unfoldable pub draw_matches : List ℕ → Tournament → Outcome Tournament
draw_matches slot_hashes t = do
  require (leb 48 (length slot_hashes)) slot_hash_unavailable
  let seed = mix_id 4 t.id (take 32 (drop 16 slot_hashes))
  let k = effective_k t.participant_count t.matches_per_player
  ok (record t {
    randomness_seed = seed;
    matches_per_player = k;
    round_tier = if leb t.participant_count 1000 then 0 else 1;
    matches_total = calculate_match_count t.participant_count k seed;
    state = running;
  })

-- From `if participant_count % 2 == 1` on.
unfoldable pub even_out : Option Pubkey → Option Pubkey → World → Outcome World
even_out refund_entry refund_player w =
    if w.tournament.participant_count % 2 == 1
    then refund_last refund_entry refund_player w
    else ok w

unfoldable pub start_matches : List ℕ → World → Outcome World
start_matches slot_hashes w =
    if w.tournament.participant_count == 0
    then ok (record w { tournament = skip_matches w.tournament })
    else (do t ← draw_matches slot_hashes w.tournament; ok (record w { tournament = t }))

unfoldable pub close_reveal :
    Pubkey → ℤ → List ℕ → Option Pubkey → Option Pubkey → World → Outcome World
close_reveal signer now slot_hashes refund_entry refund_player w = do
  require (signer == w.config.operator) unauthorized
  require (same_state w.tournament.state reveal) invalid_state
  require (ltb_ℤ w.tournament.reveal_ends now) reveal_period_not_ended
  t ← add_costs w.config.operator_tx_fee w.tournament
  require (t.reveals_completed == t.participant_count) unprocessed_forfeits
  let w₁ = record w { tournament = t }
  if t.participant_count == 0
      then ok (record w₁ { tournament = skip_matches t })
      else (do w₂ ← even_out refund_entry refund_player w₁; start_matches slot_hashes w₂)

unfoldable pub forfeit_unrevealed : Pubkey → Pubkey → ℤ → List ℕ → World → Outcome World
forfeit_unrevealed signer player now slot_hashes w = do
  require (signer == w.config.operator) unauthorized
  a ← opened player w
  require (same_state w.tournament.state reveal) invalid_state
  require (ltb_ℤ w.tournament.reveal_ends now) reveal_period_not_ended
  t ← add_costs w.config.operator_tx_fee w.tournament
  require (not a.entry.revealed) already_revealed
  require (leb 48 (length slot_hashes)) slot_hash_unavailable
  s ← ok_or (from_index (get_or slot_hashes (16 + a.entry.index % 32) 0 % 9)) invalid_state
  strategies ← assign t.strategies a.entry.index (strategy_index s)
  ok (record w {
    tournament = record t {
      strategies = strategies;
      reveals_completed = add_u32 t.reveals_completed 1;
    };
    entries = write_entry player (record a.entry { strategy = s; revealed = true }) w.entries;
  })
