-- ===== src/Arena/Sync/Playing.antt =====
-- The scores of programs/prisoners-arena through `run_matches`.
use prisoners_arena_program.Base.{
  ℕ, zero, suc, ◌+◌, ◌<◌, ◌≡◌, ◌≢◌, refl, arith, some, List, [], ◌∷◌, ok, get_elem?, set, inl, inr,
  sym, ◌∙◌, add_u32, >>=-eq-ok,
}
use mathlib.Core.Path.{subst}
use mathlib.Core.Option.{some-injective}
use prisoners_arena_program.Pairing.{get_pairing_for_match}
use prisoners_arena_program.Pairing.Schedule.{
  get_pairing_for_match_order, get_pairing_for_match-few,
}
use prisoners_arena_program.Arena.State.{Pubkey, Tournament, Entry, running}
use prisoners_arena_program.Arena.World.{World, EntryAccount, write_entry}
use prisoners_arena_program.Arena.Lifecycle.{add_costs}
use prisoners_arena_program.Arena.Running.{add_score, run_one, run_batch, run_matches}
use prisoners_arena_program.Arena.Sound.{IsSoundWorld}
use prisoners_arena_program.Arena.Sound.Slots.{active-le-length}
use prisoners_arena_program.Arena.Sound.Seats.{Seated, Holds}
use prisoners_arena_program.Arena.Sound.Pairs.{
  Scored, add_result-Scored, add_score-other, add_score-ok, find_entry_account-ok, Pairs,
  play_pair-Pairs, run_one-ok,
}
use prisoners_arena_program.Arena.Sound.Playing.{
  rescored-Seated, run_one-IsSoundWorld, add_costs-IsSoundWorld, run_matches-ok,
}
use prisoners_arena_program.Arena.Sync.{IsSynced, IsDrawn}
use prisoners_arena_program.Arena.Sync.Entries.{Tells, AllTell, AllTell-find, AllTell-rescore}

get_elem?-set_self :
    (xs : List ℕ) (i v : ℕ) {x : ℕ} → get_elem? xs i ≡ some x → get_elem? (set xs i v) i ≡ some v
get_elem?-set_self [] i v e = cc
get_elem?-set_self (x ∷ xs) zero v e = refl
get_elem?-set_self (x ∷ xs) (suc i) v e = get_elem?-set_self xs i v e

-- A score is added for one entry, in the entry and in the tournament.
AllTell-gain :
    (ks : List Pubkey) (ss scores scores' : List ℕ) (x n : ℕ) (p : Pubkey) (e e' : Entry)
    (as' : List EntryAccount)
    → Seated ks ss as'
    → Holds ks ss e
    → e'.player ≡ p
    → e.index ≡ x
    → Tells scores e
    → Scored n e e'
    → add_score x n scores ≡ ok scores'
    → AllTell scores as'
    → AllTell scores' (write_entry p e' as')
AllTell-gain ks ss scores scores' x n p e e' as' s held named at told c gained t =
    let (old, old_at, after) = add_score-ok x n scores scores' gained in
    let was : old ≡ e.score = some-injective _ _ (sym old_at ∙ rw at at told) in
    let seat : get_elem? ks x ≡ some p = rw (at, ← c.player, named) at held.seat in
    let new : Tells (set scores x (old + n)) e' =
      rw (c.index, at, c.score, ← was) (get_elem?-set_self scores x (old + n) old_at) in
    rw after (AllTell-rescore ks ss scores x (old + n) e' as' s seat new t)

-- A pair of the schedule is of two players.
paired_apart :
    (t : Tournament) (i : ℕ) {x y : ℕ}
    → t.participant_count < 65536
    → IsDrawn t
    → get_pairing_for_match t.participant_count t.matches_per_player t.randomness_seed i
      ≡ some (x, y)
    → x ≢ y
paired_apart t i small (inl empty) e q =
    get_pairing_for_match-few t.participant_count t.matches_per_player t.randomness_seed i
      (omega (arith, empty)) e
paired_apart t i small (inr (config_k, k)) e q =
    let (lo, _) =
      get_pairing_for_match_order t.participant_count config_k t.randomness_seed i small
        (rw k at e) in
    omega (arith, lo, q)

Pairs-AllTell :
    (passed : List Pubkey) (x y : ℕ) (a b : Pubkey) (w w' : World)
    → Seated w.tournament.players w.tournament.strategies w.entries
    → AllTell w.tournament.scores w.entries
    → x ≢ y
    → Pairs passed x y a b w w'
    → AllTell w'.tournament.scores w'.entries
Pairs-AllTell passed x y a b w w' s t apart p =
    let ks = w.tournament.players in
    let ss = w.tournament.strategies in
    let (xa, fa, same_a) = find_entry_account-ok passed a w p.before_a p.found_a in
    let (xb, fb, same_b) = find_entry_account-ok passed b w p.before_b p.found_b in
    let ca = add_result-Scored p.score_a p.before_a p.after_a p.result_a in
    let cb = add_result-Scored p.score_b p.before_b p.after_b p.result_b in
    let (named_a, held_a, s₁) =
      rescored-Seated passed w a p.score_a p.before_a p.after_a w.entries s p.found_a p.result_a
        s in
    let (named_b, held_b, _) =
      rescored-Seated passed w b p.score_b p.before_b p.after_b w.entries s p.found_b p.result_b
        s in
    let scores = w.tournament.scores in
    let told_a = subst (Tells scores) same_a (AllTell-find scores a w.entries t fa) in
    let told_b = subst (Tells scores) same_b (AllTell-find scores b w.entries t fb) in
    let kept : Tells p.between p.before_b =
      add_score-other x p.score_a p.before_b.index scores p.between p.gained_a
        (λ q. apart (q ∙ p.index_b))
      ∙ told_b in
    let first =
      AllTell-gain ks ss scores p.between x p.score_a a p.before_a p.after_a w.entries s held_a
        named_a p.index_a told_a ca p.gained_a t in
    rw p.entries (
      AllTell-gain ks ss p.between w'.tournament.scores y p.score_b b p.before_b p.after_b
        (write_entry a p.after_a w.entries) s₁ held_b named_b p.index_b kept cb p.gained_b first)

run_one-IsSynced :
    (passed : List Pubkey) (i : ℕ) (w w' : World)
    → IsSoundWorld w
    → IsSynced w.tournament w.entries
    → w.tournament.state ≡ running
    → run_one passed i w ≡ ok w'
    → IsSynced w'.tournament w'.entries × (w'.tournament.state ≡ running)
run_one-IsSynced passed i w w' v y now h = elim (run_one-ok passed i w w' h) [
  | inl e ↦ rw e (record { told = y.told; drawn = y.drawn }, now)
  | inr (j, k, a, b, e, f) ↦
      (let p = play_pair-Pairs passed i j k a b w w' f in
        let s = v.sound in
        let small : w.tournament.participant_count < 65536 =
          omega (arith, s.counted, s.few, active-le-length w.tournament.players) in
        let apart = paired_apart w.tournament i small (y.drawn now) e in
        (
          record {
            told = Pairs-AllTell passed j k a b w w' s.seated y.told apart p;
            drawn = λ _. rw (p.same.participants, p.same.k) (y.drawn now);
          },
          p.same.state ∙ now,
        ))
]

run_batch-IsSynced :
    (left : ℕ) (passed : List Pubkey) (i : ℕ) (w w' : World)
    → IsSoundWorld w
    → IsSynced w.tournament w.entries
    → w.tournament.state ≡ running
    → run_batch left passed i w ≡ ok w'
    → IsSynced w'.tournament w'.entries
unfolding run_batch
run_batch-IsSynced zero passed i w w' v y now h = let same : w ≡ w' = grind arith in rw (← same) y
run_batch-IsSynced (suc left) passed i w w' v y now h =
    let (w₁, p, q) = >>=-eq-ok (run_one passed i w) (run_batch left passed (add_u32 i 1)) h in
    let (y₁, now₁) = run_one-IsSynced passed i w w₁ v y now p in
    run_batch-IsSynced left passed (add_u32 i 1) w₁ w' (run_one-IsSoundWorld passed i w w₁ v p) y₁
      now₁ q

-- The costs of the operator touch nothing that is told.
pub add_costs-IsSynced :
    (fee : ℕ) (t t' : Tournament) (es : List EntryAccount)
    → add_costs fee t ≡ ok t'
    → IsSynced t es
    → IsSynced t' es
unfolding add_costs
add_costs-IsSynced fee t t' es c y =
    let same : t' ≡ record t { operator_costs = t'.operator_costs } = grind arith in
    rw same (record { told = y.told; drawn = y.drawn })

run_matches-state :
    (signer : Pubkey) (passed : List Pubkey) (w w' : World)
    → run_matches signer passed w ≡ ok w'
    → w.tournament.state ≡ running
unfolding run_matches
run_matches-state signer passed w w' h = grind arith

state-add_costs : (fee : ℕ) (t t' : Tournament) → add_costs fee t ≡ ok t' → t'.state ≡ t.state
unfolding add_costs
state-add_costs fee t t' c = grind arith

pub run_matches-IsSynced :
    (signer : Pubkey) (passed : List Pubkey) (w w' : World)
    → IsSoundWorld w
    → IsSynced w.tournament w.entries
    → run_matches signer passed w ≡ ok w'
    → IsSynced w'.tournament w'.entries
run_matches-IsSynced signer passed w w' v y h = elim (run_matches-ok signer passed w w' h) [
  | inl e ↦ rw e y
  | inr (t, n, c, r) ↦
      (let fee = w.config.operator_tx_fee in
        let now = state-add_costs fee w.tournament t c ∙ run_matches-state signer passed w w' h in
        run_batch-IsSynced n passed t.matches_completed (record w { tournament = t }) w'
          (add_costs-IsSoundWorld fee w t v c) (add_costs-IsSynced fee w.tournament t w.entries c y)
          now r)
]
