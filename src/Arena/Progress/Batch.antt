-- ===== src/Arena/Progress/Batch.antt =====
-- `run_matches` of programs/prisoners-arena, call after call.
use prisoners_arena_program.Base.{
  ℕ, zero, suc, ◌+◌, ◌-◌, ◌*◌, ◌^◌, ◌≤◌, ◌<◌, ◌≡◌, refl, arith, true, List, ok, ◌>>=◌, ltb, lt→ltb,
  min, sub_u32, add_u32, ◌==◌, ap, ◌∙◌, Bool-cases, inl, inr,
}
use prisoners_arena_program.Arena.Error.{Outcome}
use prisoners_arena_program.Arena.State.{Pubkey, running, same_state, matches_per_tx}
use prisoners_arena_program.Arena.World.{World, checked_u64}
use prisoners_arena_program.Arena.Lifecycle.{add_costs}
use prisoners_arena_program.Arena.Running.{run_batch, run_matches}
use prisoners_arena_program.Arena.Sound.Slots.{all_revealed-ok}
use prisoners_arena_program.Arena.Progress.{IsPlaying, PassesAll}
use prisoners_arena_program.Arena.Progress.Match.{HasRun, run_one-runs, matches_total-le}

run_batch-runs :
    (left : ℕ) (passed : List Pubkey) (w : World)
    → IsPlaying w
    → PassesAll passed w
    → w.tournament.matches_completed + left ≤ w.tournament.matches_total
    → (w' : World) × (run_batch left passed w.tournament.matches_completed w ≡ ok w')
      × HasRun passed left w w'
unfolding run_batch
run_batch-runs zero passed w v all room = (
  w,
  refl,
  record {
    playing = v;
    passes = all;
    completed = omega arith;
    total = refl;
    costs = refl;
    config = refl;
  },
)
run_batch-runs (suc left) passed w v all room =
    let (w₁, runs, h) = run_one-runs passed w v all (omega arith) in
    let (w₂, rest, g) =
      run_batch-runs left passed w₁ h.playing h.passes (omega (arith, h.completed, h.total)) in
    let small = matches_total-le w v in
    let next : add_u32 w.tournament.matches_completed 1 ≡ w₁.tournament.matches_completed =
      ground (arith, h.completed, add_u32) in
    (
      w₂,
      rw (runs, next) rest,
      record {
        playing = g.playing;
        passes = g.passes;
        completed = omega (arith, g.completed, h.completed);
        total = g.total ∙ h.total;
        costs = g.costs ∙ h.costs;
        config = g.config ∙ h.config;
      },
    )

-- Costs do not matter to the matches.
with_costs-IsPlaying :
    (c : ℕ) (w : World)
    → IsPlaying w
    → IsPlaying (record w { tournament = record w.tournament { operator_costs = c } })
with_costs-IsPlaying c w v =
    let s = v.sound.sound in
    record {
      sound = record {
        typed = v.sound.typed;
        sound = record {
          scores = s.scores;
          strategies = s.strategies;
          few = s.few;
          counted = s.counted;
          entered = s.entered;
          seated = s.seated;
          opened = s.opened;
          hidden = s.hidden;
          tallied = s.tallied;
          complete = s.complete;
        };
      };
      now = v.now;
      several = v.several;
      allowed = v.allowed;
      config_k = v.config_k;
      drawn = v.drawn;
      total = v.total;
      done = v.done;
      low = v.low;
      playable = v.playable;
    }

-- What a call of `run_matches` by the operator has done.
pub record Advances (passed : List Pubkey) (w w' : World) : Type 0 where
  pub playing : IsPlaying w'
  pub passes : PassesAll passed w'
  pub completed :
      w'.tournament.matches_completed
      ≡ w.tournament.matches_completed
        + min 5 (w.tournament.matches_total - w.tournament.matches_completed)
  pub total : w'.tournament.matches_total ≡ w.tournament.matches_total
  pub costs : w'.tournament.operator_costs ≤ w.tournament.operator_costs + w.config.operator_tx_fee
  pub config : w'.config ≡ w.config

-- When the operator calls `run_matches` on a running tournament with the accounts of all the active
-- players, and the costs of the operator stay a u64, the call succeeds: it completes five matches, or
-- those that are left, and the tournament is a running one again.
pub run_matches-runs :
    (passed : List Pubkey) (w : World)
    → IsPlaying w
    → PassesAll passed w
    → w.tournament.operator_costs + w.config.operator_tx_fee < 2 ^ 64
    → (w' : World) × (run_matches w.config.operator passed w ≡ ok w') × Advances passed w w'
unfolding run_matches add_costs checked_u64
run_matches-runs passed w v all room =
    let t = w.tournament in
    let n = t.matches_total - t.matches_completed in
    let most = matches_total-le w v in
    let left : min matches_per_tx (sub_u32 t.matches_total t.matches_completed) ≡ min 5 n =
      ground (arith, sub_u32, v.done) in
    let charged = t.operator_costs + w.config.operator_tx_fee in
    let w₀ = record w { tournament = record t { operator_costs = charged } } in
    let fits : ltb charged (2 ^ 64) ≡ true = lt→ltb charged (2 ^ 64) room in
    let s = v.sound.sound in
    let revealed =
      all_revealed-ok t.players t.strategies s.strategies
        (omega (arith, s.tallied, s.counted, s.complete (rw v.now refl))) in
    let own : (w.config.operator == w.config.operator) ≡ true = grind arith in
    let is_now : same_state t.state running ≡ true = rw v.now refl in
    elim (Bool-cases (min 5 n == 0)) [
      | inl none_left ↦ (
        w,
        rw (own, is_now, left, none_left) refl,
        record {
          playing = v;
          passes = all;
          completed = ground arith;
          total = refl;
          costs = omega arith;
          config = refl;
        },
      )
      | inr some_left ↦
          (let (w', runs, h) =
              run_batch-runs (min 5 n) passed w₀ (with_costs-IsPlaying charged w v) all
                (ground (arith, v.done)) in
            (
              w',
              rw (own, is_now, left, some_left, fits, revealed) runs,
              record {
                playing = h.playing;
                passes = h.passes;
                completed = h.completed;
                total = h.total;
                costs = omega (arith, h.costs);
                config = h.config;
              },
            ))
    ]

-- The operator calls `run_matches` this many times.
unfoldable pub crank : ℕ → Pubkey → List Pubkey → World → Outcome World
crank zero operator passed w = ok w
crank (suc calls) operator passed w = do
  w' ← run_matches operator passed w
  crank calls operator passed w'

-- From a running tournament, the operator completes all the matches by as many calls of
-- `run_matches` as there are fives of them left, or more, each with the accounts of all the active
-- players: every call succeeds, if their costs stay a u64.
pub matches_completed-crank :
    (calls : ℕ) (passed : List Pubkey) (w : World)
    → IsPlaying w
    → PassesAll passed w
    → w.tournament.operator_costs + calls * w.config.operator_tx_fee < 2 ^ 64
    → w.tournament.matches_total ≤ w.tournament.matches_completed + 5 * calls
    → (w' : World) × (crank calls w.config.operator passed w ≡ ok w')
      × IsPlaying w'
      × (w'.tournament.matches_completed ≡ w.tournament.matches_total)
      × (w'.tournament.matches_total ≡ w.tournament.matches_total)
unfolding crank
matches_completed-crank zero passed w v all room enough = (w, refl, v, omega (arith, v.done), refl)
matches_completed-crank (suc calls) passed w v all room enough =
    let (w₁, runs, h) = run_matches-runs passed w v all (omega arith) in
    let fee : w₁.config.operator_tx_fee ≡ w.config.operator_tx_fee = rw h.config refl in
    let spent : w₁.tournament.operator_costs + calls * w₁.config.operator_tx_fee < 2 ^ 64 =
      rw fee (omega (arith, h.costs)) in
    let (w₂, rest, v₂, done, total) =
      matches_completed-crank calls passed w₁ h.playing h.passes spent
        (ground (arith, h.completed, h.total, v.done)) in
    (w₂, rw runs (rw (ap (λ c. c.operator) h.config) at rest), v₂, done ∙ h.total, total ∙ h.total)
