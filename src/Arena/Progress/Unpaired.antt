-- ===== src/Arena/Progress/Unpaired.antt =====
-- The slots beyond the number of players, in the matches of programs/prisoners-arena.
use prisoners_arena_program.Base.{
  ℕ, zero, suc, ◌≤◌, ◌<◌, ◌≡◌, ◌≢◌, refl, arith, List, ok, get_elem?, inl, inr, sym, ◌∙◌, ap,
  >>=-eq-ok, add_u32,
}
use prisoners_arena_program.Pairing.Counts.{effective_k}
use prisoners_arena_program.Pairing.Schedule.{get_pairing_for_match_order}
use prisoners_arena_program.Arena.State.{Pubkey}
use prisoners_arena_program.Arena.World.{World}
use prisoners_arena_program.Arena.Lifecycle.{add_costs}
use prisoners_arena_program.Arena.Running.{run_one, run_batch, run_matches}
use prisoners_arena_program.Arena.Sound.Playing.{run_matches-ok}
use prisoners_arena_program.Arena.Sound.Pairs.{add_score-other, play_pair-Pairs, run_one-ok}
use mathlib.Core.Path.{subst}

-- What stays at a slot `j` from the number of players on.
record Leaves (j : ℕ) (w w' : World) : Type 0 where
  score : get_elem? w'.tournament.scores j ≡ get_elem? w.tournament.scores j
  participants : w'.tournament.participant_count ≡ w.tournament.participant_count
  k : w'.tournament.matches_per_player ≡ w.tournament.matches_per_player

run_one-Leaves :
    (passed : List Pubkey) (i config_k j : ℕ) (w w' : World)
    → w.tournament.participant_count < 65536
    → w.tournament.matches_per_player ≡ effective_k w.tournament.participant_count config_k
    → w.tournament.participant_count ≤ j
    → run_one passed i w ≡ ok w'
    → Leaves j w w'
run_one-Leaves passed i config_k j w w' small k far h = elim (run_one-ok passed i w w' h) [
  | inl e ↦ subst (Leaves j w) (sym e) (record { score = refl; participants = refl; k = refl })
  | inr (x, y, a, b, e, f) ↦
      (let t = w.tournament in
        let (lo, hi) =
          get_pairing_for_match_order t.participant_count config_k t.randomness_seed i small
            (rw k at e) in
        let p = play_pair-Pairs passed i x y a b w w' f in
        let nx : x ≢ j = λ q. omega (arith, q) in
        let ny : y ≢ j = λ q. omega (arith, q) in
        record {
          score =
              add_score-other y p.score_b j p.between w'.tournament.scores p.gained_b ny
              ∙ add_score-other x p.score_a j t.scores p.between p.gained_a nx;
          participants = p.same.participants;
          k = p.same.k;
        })
]

run_batch-Leaves :
    (left : ℕ) (passed : List Pubkey) (i config_k j : ℕ) (w w' : World)
    → w.tournament.participant_count < 65536
    → w.tournament.matches_per_player ≡ effective_k w.tournament.participant_count config_k
    → w.tournament.participant_count ≤ j
    → run_batch left passed i w ≡ ok w'
    → Leaves j w w'
unfolding run_batch
run_batch-Leaves zero passed i config_k j w w' small k far h = record {
  score = grind arith;
  participants = grind arith;
  k = grind arith;
}
run_batch-Leaves (suc left) passed i config_k j w w' small k far h =
    let (w₁, p, q) = >>=-eq-ok (run_one passed i w) (run_batch left passed (add_u32 i 1)) h in
    let l = run_one-Leaves passed i config_k j w w₁ small k far p in
    let n = l.participants in
    let m =
      run_batch-Leaves left passed (add_u32 i 1) config_k j w₁ w' (rw n small)
        (l.k ∙ k ∙ ap (λ c. effective_k c config_k) (sym n)) (rw n far) q in
    record { score = m.score ∙ l.score; participants = m.participants ∙ n; k = m.k ∙ l.k }

-- With any number of players that a u16 holds and the matches per player that `effective_k` makes of
-- some setting, `run_matches` leaves the scores as they are at every index from the number of players on,
-- be there an active player at that index or not.
pub run_matches-unpaired :
    (signer : Pubkey) (passed : List Pubkey) (config_k j : ℕ) (w w' : World)
    → w.tournament.participant_count < 65536
    → w.tournament.matches_per_player ≡ effective_k w.tournament.participant_count config_k
    → w.tournament.participant_count ≤ j
    → run_matches signer passed w ≡ ok w'
    → get_elem? w'.tournament.scores j ≡ get_elem? w.tournament.scores j
unfolding add_costs
run_matches-unpaired signer passed config_k j w w' small k far h =
    elim (run_matches-ok signer passed w w' h) [
      | inl e ↦ ap (λ x. get_elem? x.tournament.scores j) e
      | inr (t, n, c, r) ↦
          (let count : t.participant_count ≡ w.tournament.participant_count = grind arith in
            let mpp : t.matches_per_player ≡ w.tournament.matches_per_player = grind arith in
            let scores : t.scores ≡ w.tournament.scores = grind arith in
            let l =
              run_batch-Leaves n passed t.matches_completed config_k j (record w { tournament = t })
                w' (rw count small) (mpp ∙ k ∙ ap (λ m. effective_k m config_k) (sym count))
                (rw count far) r in
            l.score ∙ ap (λ xs. get_elem? xs j) scores)
    ]
