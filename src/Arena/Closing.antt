-- ===== src/Arena/Closing.antt =====
-- programs/prisoners-arena/src/instructions/tournament.rs: `close_entry` and `close_tournament`.
use prisoners_arena_program.Base.{
  ◌+◌, Bool, not, ◌&&◌, ◌||◌, ok, require, ok_or, ◌>>=◌, ◌>>◌, ltb, leb, ◌==◌, if◌then◌else◌,
  add_u32, min,
}
use prisoners_arena_program.Base.Int.{ℤ, leb_ℤ, add_i64}
use prisoners_arena_program.Arena.Error.{
  Outcome, invalid_state, overflow, unauthorized, tournament_not_closeable, entries_remaining,
}
use prisoners_arena_program.Arena.State.{
  Pubkey, Tournament, payout, same_state, Entry, claim_expiry_seconds, tournament_closure_seconds,
}
use prisoners_arena_program.Arena.World.{
  Runtime, World, opened, close_to, checked_u64, take_from_tournament, pay_wallet, spare,
}
use prisoners_arena_program.Arena.Ledger.{checked_sub}
use prisoners_arena_program.Arena.Finalize.{collect_fees}
use prisoners_arena_program.Arena.Player.{share}

-- A winner who has not been paid.
unfoldable pub is_unpaid_winner : Tournament → Entry → Bool
is_unpaid_winner t e = not e.paid_out && ltb 0 t.winner_count && leb t.min_winning_score e.score

unfoldable pub is_expired : ℤ → Tournament → Bool
is_expired now t = leb_ℤ (add_i64 t.payout_started_at claim_expiry_seconds) now

-- The prize of an unpaid winner, at most what can be spared: to the player, or after 30 days to the
-- fees.
unfoldable pub settle : Runtime → Pubkey → ℤ → World → Outcome World
settle rt player now w =
    let amount = min (share w.tournament) (spare rt w) in
    if is_expired now w.tournament then collect_fees amount w else (do
      w₁ ← take_from_tournament amount w
      ok (
          pay_wallet player amount (record w₁ {
            tournament = record w₁.tournament {
              claims_processed = add_u32 w.tournament.claims_processed 1;
            };
          })))

unfoldable pub close_entry : Runtime → Pubkey → Pubkey → ℤ → World → Outcome World
close_entry rt signer player now w = do
  require (signer == w.config.operator) unauthorized
  a ← opened player w
  require (same_state w.tournament.state payout) invalid_state
  w₁ ← (if is_unpaid_winner w.tournament a.entry then settle rt player now w else ok w)
  remaining ← ok_or (checked_sub w₁.tournament.entries_remaining 1) overflow
  ok (
      close_to player a.lamports
        (record w₁ { tournament = record w₁.tournament { entries_remaining = remaining } }))

-- The tournament's account is left without lamports, and its data is gone.
unfoldable pub close_tournament : Pubkey → ℤ → World → Outcome World
close_tournament signer now w = do
  require (signer == w.config.operator || signer == w.config.admin) unauthorized
  require (same_state w.tournament.state payout) invalid_state
  let time_expired = leb_ℤ (add_i64 w.tournament.payout_started_at tournament_closure_seconds) now
  require (time_expired || leb w.tournament.winner_count w.tournament.claims_processed)
      tournament_not_closeable
  require (w.tournament.entries_remaining == 0) entries_remaining
  fees ← ok_or (checked_u64 (w.config.accumulated_fees + w.tournament_lamports)) overflow
  ok (record w {
    tournament_lamports = 0;
    config_lamports = w.config_lamports + w.tournament_lamports;
    config = record w.config { accumulated_fees = fees };
  })
