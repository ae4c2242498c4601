-- ===== src/Arena/Sync/Drawing.antt =====
-- The scores of programs/prisoners-arena through `close_reveal` and `finalize_tournament`.
use prisoners_arena_program.Base.{
  ℕ, ◌≡◌, ◌%◌, arith, Option, List, ok, ◌==◌, Bool-cases, inl, inr, sym, ◌∙◌,
}
use native.Mathlib.Decide.{dec_le}
use prisoners_arena_program.Base.Int.{ℤ}
use prisoners_arena_program.Arena.State.{Pubkey, payout, base_space}
use prisoners_arena_program.Arena.World.{Runtime, World}
use prisoners_arena_program.Arena.Lifecycle.{
  close_reveal, even_out, start_matches, draw_matches, skip_matches,
}
use prisoners_arena_program.Arena.Finalize.{NextTournament, finalize_tournament}
use prisoners_arena_program.Arena.Sound.Evening.{close_reveal-ok}
use prisoners_arena_program.Arena.Sound.Refunded.{refund_last-ok}
use prisoners_arena_program.Arena.Sound.Finalizing.{
  finalize_tournament-ok, award-Moves, sweep-Moves, add_final_costs-Moves, charge-keeps,
}
use prisoners_arena_program.Arena.Sound.Paying.{Moves}
use prisoners_arena_program.Arena.Opening.Drawing.{start_matches-Draws}
use prisoners_arena_program.Arena.Sync.{IsSynced, IsDrawn}
use prisoners_arena_program.Arena.Sync.Entries.{AllTell, AllTell-remove}
use prisoners_arena_program.Arena.Sync.Playing.{add_costs-IsSynced}

-- In the reveal phase.
even_out-AllTell :
    (entry player : Option Pubkey) (w w' : World)
    → AllTell w.tournament.scores w.entries
    → even_out entry player w ≡ ok w'
    → AllTell w'.tournament.scores w'.entries
unfolding even_out
even_out-AllTell entry player w w' y h =
    elim (Bool-cases (w.tournament.participant_count % 2 == 1)) [
      | inl odd ↦
          (let (p, a, found, i, at_i, inside, ks, ss, sc, pc, er, rc, st, ec, ee) =
              refund_last-ok entry player w w' (grind arith) in
            rw (sc, ee) (AllTell-remove w.tournament.scores p w.entries y))
      | inr even ↦ (let same : w ≡ w' = grind arith in rw (← same) y)
    ]

start_matches-keeps :
    (hashes : List ℕ) (w w' : World)
    → start_matches hashes w ≡ ok w'
    → (w'.tournament.scores ≡ w.tournament.scores) × (w'.entries ≡ w.entries)
unfolding start_matches draw_matches skip_matches
start_matches-keeps hashes w w' h = (grind arith, grind arith)

start_matches-IsDrawn :
    (hashes : List ℕ) (w w' : World) → start_matches hashes w ≡ ok w' → IsDrawn w'.tournament
start_matches-IsDrawn hashes w w' h = elim (dec_le 1 w'.tournament.participant_count) [
  | yes some_left ↦
      inr (w.tournament.matches_per_player, (start_matches-Draws hashes w w' some_left h).k)
  | no empty ↦ inl (omega arith)
]

pub close_reveal-IsSynced :
    (signer : Pubkey) (now : ℤ) (hashes : List ℕ) (entry player : Option Pubkey) (w w' : World)
    → IsSynced w.tournament w.entries
    → close_reveal signer now hashes entry player w ≡ ok w'
    → IsSynced w'.tournament w'.entries
unfolding skip_matches
close_reveal-IsSynced signer now hashes entry player w w' y h =
    let (t, c, st, full, branch) = close_reveal-ok signer now hashes entry player w w' h in
    let y₁ = add_costs-IsSynced w.config.operator_tx_fee w.tournament t w.entries c y in
    elim branch [
      | inl (z, e) ↦ rw e (record { told = y₁.told; drawn = λ _. inl z })
      | inr (w₁, p, q) ↦
          (let told = even_out-AllTell entry player (record w { tournament = t }) w₁ y₁.told p in
            let (scores, entries) = start_matches-keeps hashes w₁ w' q in
            record {
              told = rw (scores, entries) told;
              drawn = λ _. start_matches-IsDrawn hashes w₁ w' q;
            })
    ]

pub finalize_tournament-IsSynced :
    (rt : Runtime) (signer : Pubkey) (now : ℤ) (bump : ℕ) (w w' : World) (n : NextTournament)
    → IsSynced w.tournament w.entries
    → finalize_tournament rt signer now bump w ≡ ok (w', n)
    → IsSynced w'.tournament w'.entries
finalize_tournament-IsSynced rt signer now bump w w' n y h =
    let (st, w₀, w₂, t, paid, costs, branch, et, ec, ee, _) =
      finalize_tournament-ok rt signer now bump w w' n h in
    let (_, e₀) = charge-keeps signer (rt.minimum_balance base_space) w w₀ paid in
    let m = add_final_costs-Moves w.config.operator_tx_fee w t costs in
    let moved : Moves (record w₀ { tournament = record t { state = payout } }) w₂ = elim branch [
      | inl e ↦ sweep-Moves rt signer now (record w₀ { tournament = t }) w₂ e
      | inr e ↦ award-Moves rt signer now (record w₀ { tournament = t }) w₂ e
    ] in
    record {
      told = rw (et, ee, moved.scores, moved.entries, e₀, m.scores) y.told;
      drawn = λ r. absurd (let no = sym moved.state ∙ rw et at r in cc);
    }
