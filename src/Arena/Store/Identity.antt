-- ===== src/Arena/Store/Identity.antt =====
-- The id of a tournament of programs/prisoners-arena through its instructions.
use prisoners_arena_program.Base.{
  ℕ, zero, suc, ◌≡◌, arith, Option, List, ok, err, >>=-eq-ok, Result-cases, inl, inr, add_u32, ◌∙◌,
  ap,
}
use prisoners_arena_program.Base.Int.{ℤ}
use prisoners_arena_program.Arena.Error.{Outcome}
use prisoners_arena_program.Arena.State.{Pubkey, Tournament}
use prisoners_arena_program.Arena.World.{Runtime, World, take_from_tournament}
use prisoners_arena_program.Arena.Admin.{withdraw_fees}
use prisoners_arena_program.Arena.Player.{
  enter_tournament, open_entry, add_player, reveal_strategy, claim_refund, claim_payout,
  drop_player,
}
use prisoners_arena_program.Arena.Lifecycle.{
  add_costs, close_registration, close_reveal, start_matches, draw_matches, skip_matches, even_out,
  refund_last, forfeit_unrevealed,
}
use prisoners_arena_program.Arena.Running.{run_matches, run_batch, run_one, play_pair}
use prisoners_arena_program.Arena.Finalize.{
  NextTournament, finalize_tournament, collect_fees, reimburse, sweep, award, add_final_costs,
}
use prisoners_arena_program.Arena.Closing.{settle, close_entry, close_tournament}
use prisoners_arena_program.Arena.Sound.Evening.{close_reveal-ok}
use prisoners_arena_program.Arena.Sound.Playing.{run_matches-ok}
use prisoners_arena_program.Arena.Sound.Finalizing.{finalize_tournament-ok}
use prisoners_arena_program.Arena.Session.{
  Instruction, updates, withdraws, enters, reveals, claims_refund, claims_payout,
  closes_registration, closes_reveal, forfeits, runs, closes_entry, closes_tournament, execute,
}

abbrev id_of : World → ℕ
id_of w = w.tournament.id

-- The id after a step, or `n` if it fails.
abbrev id_in : ℕ → Outcome World → ℕ
id_in n (ok w) = id_of w
id_in n (err e) = n

id_in-run_one :
    (passed : List Pubkey) (i : ℕ) (w : World) → id_in (id_of w) (run_one passed i w) ≡ id_of w
unfolding run_one play_pair
id_in-run_one passed i w = grind arith

id-run_batch :
    (left : ℕ) (passed : List Pubkey) (i : ℕ) (w w' : World)
    → run_batch left passed i w ≡ ok w'
    → id_of w' ≡ id_of w
unfolding run_batch
id-run_batch zero passed i w w' h = grind arith
id-run_batch (suc left) passed i w w' h =
    let (w₁, p, q) = >>=-eq-ok (run_one passed i w) (run_batch left passed (add_u32 i 1)) h in
    grind (arith, p, id_in-run_one passed i w, id-run_batch left passed (add_u32 i 1) w₁ w' q)

id-add_costs : (fee : ℕ) (t t' : Tournament) → add_costs fee t ≡ ok t' → t'.id ≡ t.id
unfolding add_costs
id-add_costs fee t t' h = grind arith

id-run_matches :
    (signer : Pubkey) (passed : List Pubkey) (w w' : World)
    → run_matches signer passed w ≡ ok w'
    → id_of w' ≡ id_of w
id-run_matches signer passed w w' h = elim (run_matches-ok signer passed w w' h) [
  | inl e ↦ ap id_of e
  | inr (t, n, c, r) ↦
      id-run_batch n passed t.matches_completed (record w { tournament = t }) w' r
      ∙ id-add_costs w.config.operator_tx_fee w.tournament t c
]

id-even_out :
    (entry player : Option Pubkey) (w w' : World)
    → even_out entry player w ≡ ok w'
    → id_of w' ≡ id_of w
unfolding even_out refund_last take_from_tournament
id-even_out entry player w w' h = grind arith

id-start_matches :
    (hashes : List ℕ) (w w' : World) → start_matches hashes w ≡ ok w' → id_of w' ≡ id_of w
unfolding start_matches draw_matches skip_matches
id-start_matches hashes w w' h = grind arith

id-close_reveal :
    (signer : Pubkey) (now : ℤ) (hashes : List ℕ) (entry player : Option Pubkey) (w w' : World)
    → close_reveal signer now hashes entry player w ≡ ok w'
    → id_of w' ≡ id_of w
unfolding skip_matches
id-close_reveal signer now hashes entry player w w' h =
    let (t, c, st, full, branch) = close_reveal-ok signer now hashes entry player w w' h in
    let same = id-add_costs w.config.operator_tx_fee w.tournament t c in
    elim branch [
      | inl (z, e) ↦ ap id_of e ∙ same
      | inr (w₁, p, q) ↦
          id-start_matches hashes w₁ w' q
          ∙ id-even_out entry player (record w { tournament = t }) w₁ p
          ∙ same
    ]

id-settle :
    (rt : Runtime) (player : Pubkey) (now : ℤ) (w w' : World)
    → settle rt player now w ≡ ok w'
    → id_of w' ≡ id_of w
unfolding settle take_from_tournament collect_fees
id-settle rt player now w w' h = grind arith

id-close_entry :
    (rt : Runtime) (signer player : Pubkey) (now : ℤ) (w w' : World)
    → close_entry rt signer player now w ≡ ok w'
    → id_of w' ≡ id_of w
unfolding close_entry
id-close_entry rt signer player now w w' h = elim (Result-cases (settle rt player now w)) [
  | inr e ↦ grind arith
  | inl (w₁, e) ↦ (let same = id-settle rt player now w w₁ e in grind arith)
]

-- An accepted instruction leaves the tournament at its address.
pub id-execute :
    (rt : Runtime) (i : Instruction) (w w' : World)
    → execute rt i w ≡ ok w'
    → w'.tournament.id ≡ w.tournament.id
unfolding execute
id-execute rt (updates signer p) w w' h = grind arith
id-execute rt (withdraws signer) w w' h = unfold withdraw_fees in grind arith
id-execute rt (enters player c now bump) w w' h =
    unfold enter_tournament open_entry add_player in grind arith
id-execute rt (reveals player s salt code now) w w' h = unfold reveal_strategy in grind arith
id-execute rt (claims_refund player) w w' h =
    unfold claim_refund drop_player take_from_tournament in grind arith
id-execute rt (claims_payout player now) w w' h =
    unfold claim_payout take_from_tournament in grind arith
id-execute rt (closes_registration signer now) w w' h =
    unfold close_registration add_costs in grind arith
id-execute rt (closes_reveal signer now hashes entry player) w w' h =
    id-close_reveal signer now hashes entry player w w' h
id-execute rt (forfeits signer player now hashes) w w' h =
    unfold forfeit_unrevealed add_costs in grind arith
id-execute rt (runs signer passed) w w' h = id-run_matches signer passed w w' h
id-execute rt (closes_entry signer player now) w w' h = id-close_entry rt signer player now w w' h
id-execute rt (closes_tournament signer now) w w' h = unfold close_tournament in grind arith

id-sweep :
    (rt : Runtime) (operator : Pubkey) (now : ℤ) (w w' : World)
    → sweep rt operator now w ≡ ok w'
    → id_of w' ≡ id_of w
unfolding sweep collect_fees reimburse take_from_tournament
id-sweep rt operator now w w' h = grind arith

id-award :
    (rt : Runtime) (operator : Pubkey) (now : ℤ) (w w' : World)
    → award rt operator now w ≡ ok w'
    → id_of w' ≡ id_of w
unfolding award collect_fees reimburse take_from_tournament
id-award rt operator now w w' h = grind arith

id-add_final_costs : (fee : ℕ) (t t' : Tournament) → add_final_costs fee t ≡ ok t' → t'.id ≡ t.id
unfolding add_final_costs add_costs
id-add_final_costs fee t t' h = grind arith

pub id-finalize_tournament :
    (rt : Runtime) (signer : Pubkey) (now : ℤ) (bump : ℕ) (w w' : World) (n : NextTournament)
    → finalize_tournament rt signer now bump w ≡ ok (w', n)
    → w'.tournament.id ≡ w.tournament.id
id-finalize_tournament rt signer now bump w w' n h =
    let (st, w₀, w₂, t, paid, costs, branch, et, ec, ee, _) =
      finalize_tournament-ok rt signer now bump w w' n h in
    let charged : t.id ≡ w.tournament.id =
      id-add_final_costs w.config.operator_tx_fee w.tournament t costs in
    elim branch [
      | inl e ↦
          ap (λ x. x.id) et ∙ id-sweep rt signer now (record w₀ { tournament = t }) w₂ e ∙ charged
      | inr e ↦
          ap (λ x. x.id) et ∙ id-award rt signer now (record w₀ { tournament = t }) w₂ e ∙ charged
    ]
