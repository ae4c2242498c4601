-- ===== src/Arena/Store/Limits.antt =====
-- The limit of players in the config of programs/prisoners-arena is a u16 through the instructions.
use prisoners_arena_program.Base.{
  ℕ, zero, suc, ◌^◌, ◌<◌, ◌≡◌, arith, Option, List, ok, err, >>=-eq-ok, Result-cases, inl, inr,
  add_u32, ◌∙◌, ap,
}
use prisoners_arena_program.Base.Int.{ℤ}
use prisoners_arena_program.Arena.Error.{Outcome}
use prisoners_arena_program.Arena.State.{Pubkey}
use prisoners_arena_program.Arena.World.{Runtime, World, charge, take_from_tournament}
use prisoners_arena_program.Arena.Admin.{withdraw_fees, update_config}
use prisoners_arena_program.Arena.Player.{
  enter_tournament, open_entry, reveal_strategy, claim_refund, claim_payout,
}
use prisoners_arena_program.Arena.Lifecycle.{
  close_registration, close_reveal, start_matches, draw_matches, skip_matches, even_out,
  refund_last, forfeit_unrevealed,
}
use prisoners_arena_program.Arena.Running.{run_matches, run_batch, run_one, play_pair}
use prisoners_arena_program.Arena.Finalize.{
  NextTournament, finalize_tournament, collect_fees, reimburse, sweep, award,
}
use prisoners_arena_program.Arena.Closing.{settle, close_entry, close_tournament}
use prisoners_arena_program.Arena.Sound.Administering.{update_config-typed}
use prisoners_arena_program.Arena.Sound.Evening.{close_reveal-ok}
use prisoners_arena_program.Arena.Sound.Playing.{run_matches-ok}
use prisoners_arena_program.Arena.Sound.Finalizing.{finalize_tournament-ok}
use prisoners_arena_program.Arena.Sound.Reach.{IsTyped}
use prisoners_arena_program.Arena.Session.{
  Instruction, updates, withdraws, enters, reveals, claims_refund, claims_payout,
  closes_registration, closes_reveal, forfeits, runs, closes_entry, closes_tournament, execute,
}

abbrev limit_of : World → ℕ
limit_of w = w.config.max_participants

-- The limit after a step, or `n` if it fails.
abbrev limit_in : ℕ → Outcome World → ℕ
limit_in n (ok w) = limit_of w
limit_in n (err e) = n

limit_in-run_one :
    (passed : List Pubkey) (i : ℕ) (w : World)
    → limit_in (limit_of w) (run_one passed i w) ≡ limit_of w
unfolding run_one play_pair
limit_in-run_one passed i w = grind arith

limit-run_batch :
    (left : ℕ) (passed : List Pubkey) (i : ℕ) (w w' : World)
    → run_batch left passed i w ≡ ok w'
    → limit_of w' ≡ limit_of w
unfolding run_batch
limit-run_batch zero passed i w w' h = grind arith
limit-run_batch (suc left) passed i w w' h =
    let (w₁, p, q) = >>=-eq-ok (run_one passed i w) (run_batch left passed (add_u32 i 1)) h in
    grind (arith, p, limit_in-run_one passed i w, limit-run_batch left passed (add_u32 i 1) w₁ w' q)

limit-run_matches :
    (signer : Pubkey) (passed : List Pubkey) (w w' : World)
    → run_matches signer passed w ≡ ok w'
    → limit_of w' ≡ limit_of w
limit-run_matches signer passed w w' h = elim (run_matches-ok signer passed w w' h) [
  | inl e ↦ ap limit_of e
  | inr (t, n, c, r) ↦
      limit-run_batch n passed t.matches_completed (record w { tournament = t }) w' r
]

limit-even_out :
    (entry player : Option Pubkey) (w w' : World)
    → even_out entry player w ≡ ok w'
    → limit_of w' ≡ limit_of w
unfolding even_out refund_last take_from_tournament
limit-even_out entry player w w' h = grind arith

limit-start_matches :
    (hashes : List ℕ) (w w' : World) → start_matches hashes w ≡ ok w' → limit_of w' ≡ limit_of w
unfolding start_matches draw_matches skip_matches
limit-start_matches hashes w w' h = grind arith

limit-close_reveal :
    (signer : Pubkey) (now : ℤ) (hashes : List ℕ) (entry player : Option Pubkey) (w w' : World)
    → close_reveal signer now hashes entry player w ≡ ok w'
    → limit_of w' ≡ limit_of w
limit-close_reveal signer now hashes entry player w w' h =
    let (t, c, st, full, branch) = close_reveal-ok signer now hashes entry player w w' h in
    elim branch [
      | inl (z, e) ↦ ap limit_of e
      | inr (w₁, p, q) ↦
          limit-start_matches hashes w₁ w' q
          ∙ limit-even_out entry player (record w { tournament = t }) w₁ p
    ]

limit-settle :
    (rt : Runtime) (player : Pubkey) (now : ℤ) (w w' : World)
    → settle rt player now w ≡ ok w'
    → limit_of w' ≡ limit_of w
unfolding settle take_from_tournament collect_fees
limit-settle rt player now w w' h = grind arith

limit-close_entry :
    (rt : Runtime) (signer player : Pubkey) (now : ℤ) (w w' : World)
    → close_entry rt signer player now w ≡ ok w'
    → limit_of w' ≡ limit_of w
unfolding close_entry
limit-close_entry rt signer player now w w' h = elim (Result-cases (settle rt player now w)) [
  | inr e ↦ grind arith
  | inl (w₁, e) ↦ (let same = limit-settle rt player now w w₁ e in grind arith)
]

limit-close_tournament :
    (signer : Pubkey) (now : ℤ) (w w' : World)
    → close_tournament signer now w ≡ ok w'
    → limit_of w' ≡ limit_of w
unfolding close_tournament collect_fees take_from_tournament
limit-close_tournament signer now w w' h = grind arith

limit-enter_tournament :
    (rt : Runtime) (player : Pubkey) (c : List ℕ) (now : ℤ) (bump : ℕ) (w w' : World)
    → enter_tournament rt player c now bump w ≡ ok w'
    → limit_of w' ≡ limit_of w
unfolding enter_tournament open_entry
limit-enter_tournament rt player c now bump w w' h = grind arith

-- Through an accepted instruction, its arguments in their types.
pub limit-execute :
    (rt : Runtime) (i : Instruction) (w w' : World)
    → IsTyped i
    → w.config.max_participants < 2 ^ 16
    → execute rt i w ≡ ok w'
    → w'.config.max_participants < 2 ^ 16
unfolding execute
limit-execute rt (updates signer p) w w' t small h =
    elim (Result-cases (update_config signer p w.config)) [
      | inr e ↦ absurd (grind arith)
      | inl (c, e) ↦
          (let typed = update_config-typed signer p w.config c t small e in
            let same : w' ≡ record w { config = c } = grind arith in rw same typed)
    ]
limit-execute rt (withdraws signer) w w' t small h = unfold withdraw_fees in grind arith
limit-execute rt (enters player c now bump) w w' t small h =
    rw (limit-enter_tournament rt player c now bump w w' h) small
limit-execute rt (reveals player s salt code now) w w' t small h =
    unfold reveal_strategy in grind arith
limit-execute rt (claims_refund player) w w' t small h =
    unfold claim_refund take_from_tournament in grind arith
limit-execute rt (claims_payout player now) w w' t small h =
    unfold claim_payout take_from_tournament in grind arith
limit-execute rt (closes_registration signer now) w w' t small h =
    unfold close_registration in grind arith
limit-execute rt (closes_reveal signer now hashes entry player) w w' t small h =
    rw (limit-close_reveal signer now hashes entry player w w' h) small
limit-execute rt (forfeits signer player now hashes) w w' t small h =
    unfold forfeit_unrevealed in grind arith
limit-execute rt (runs signer passed) w w' t small h =
    rw (limit-run_matches signer passed w w' h) small
limit-execute rt (closes_entry signer player now) w w' t small h =
    rw (limit-close_entry rt signer player now w w' h) small
limit-execute rt (closes_tournament signer now) w w' t small h =
    rw (limit-close_tournament signer now w w' h) small

limit-sweep :
    (rt : Runtime) (operator : Pubkey) (now : ℤ) (w w' : World)
    → sweep rt operator now w ≡ ok w'
    → limit_of w' ≡ limit_of w
unfolding sweep collect_fees reimburse take_from_tournament
limit-sweep rt operator now w w' h = grind arith

limit-award :
    (rt : Runtime) (operator : Pubkey) (now : ℤ) (w w' : World)
    → award rt operator now w ≡ ok w'
    → limit_of w' ≡ limit_of w
unfolding award collect_fees reimburse take_from_tournament
limit-award rt operator now w w' h = grind arith

limit-charge :
    (signer : Pubkey) (rent : ℕ) (w w' : World)
    → charge signer rent w ≡ ok w'
    → limit_of w' ≡ limit_of w
unfolding charge
limit-charge signer rent w w' h = grind arith

pub limit-finalize_tournament :
    (rt : Runtime) (signer : Pubkey) (now : ℤ) (bump : ℕ) (w w' : World) (n : NextTournament)
    → finalize_tournament rt signer now bump w ≡ ok (w', n)
    → w'.config.max_participants ≡ w.config.max_participants
limit-finalize_tournament rt signer now bump w w' n h =
    let (st, w₀, w₂, t, paid, costs, branch, et, ec, ee, _) =
      finalize_tournament-ok rt signer now bump w w' n h in
    let same = limit-charge signer _ w w₀ paid in
    elim branch [
      | inl e ↦ ec ∙ limit-sweep rt signer now (record w₀ { tournament = t }) w₂ e ∙ same
      | inr e ↦ ec ∙ limit-award rt signer now (record w₀ { tournament = t }) w₂ e ∙ same
    ]
