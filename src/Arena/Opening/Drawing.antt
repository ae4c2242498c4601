-- ===== src/Arena/Opening/Drawing.antt =====
-- `close_reveal` of programs/prisoners-arena, and the matches that follow it.
use prisoners_arena_program.Base.{
  ℕ, ◌+◌, ◌*◌, ◌%◌, ◌^◌, ◌≤◌, ◌<◌, ◌≡◌, arith, Option, List, ok, Bool-cases, inl, inr, ◌==◌, ◌∙◌,
  ap,
}
use mathlib.Core.Path.{subst}
use prisoners_arena_program.Base.Int.{ℤ}
use prisoners_arena_program.Pairing.{calculate_match_count}
use prisoners_arena_program.Pairing.Counts.{effective_k}
use prisoners_arena_program.Arena.State.{Pubkey, Tournament, running}
use prisoners_arena_program.Arena.World.{Runtime, World, take_from_tournament}
use prisoners_arena_program.Arena.Lifecycle.{
  add_costs, close_reveal, refund_last, even_out, start_matches, draw_matches, skip_matches,
}
use prisoners_arena_program.Arena.Session.{Instruction, execute_all}
use prisoners_arena_program.Arena.Phases.{phase-close_reveal}
use prisoners_arena_program.Arena.Sound.{IsSoundWorld}
use prisoners_arena_program.Arena.Sound.Evening.{close_reveal-ok, close_reveal-IsSoundWorld}
use prisoners_arena_program.Arena.Sound.Refunded.{refund_last-ok}
use prisoners_arena_program.Arena.Progress.{IsPlaying, PassesAll}
use prisoners_arena_program.Arena.Progress.Batch.{crank, matches_completed-crank}
use prisoners_arena_program.Arena.Opening.{IsUnplayed}
use prisoners_arena_program.Arena.Opening.Steps.{AllPlayable-remove}
use prisoners_arena_program.Arena.Opening.Start.{AllTyped, execute_all-IsUnplayed}

matches_completed-refund_last :
    (entry player : Option Pubkey) (w w' : World)
    → refund_last entry player w ≡ ok w'
    → w'.tournament.matches_completed ≡ w.tournament.matches_completed
unfolding refund_last take_from_tournament
matches_completed-refund_last entry player w w' h = grind arith

refund_last-IsUnplayed :
    (entry player : Option Pubkey) (w w' : World)
    → IsUnplayed w
    → refund_last entry player w ≡ ok w'
    → IsUnplayed w'
refund_last-IsUnplayed entry player w w' v h =
    let (p, a, found, i, at_i, inside, ks, ss, sc, pc, er, rc, st, ec, ee) =
      refund_last-ok entry player w w' h in
    record {
      completed = matches_completed-refund_last entry player w w' h ∙ v.completed;
      scores = rw sc v.scores;
      playable = rw ee (AllPlayable-remove 0 p w.entries v.playable);
    }

even_out-IsUnplayed :
    (entry player : Option Pubkey) (w w' : World)
    → IsUnplayed w
    → even_out entry player w ≡ ok w'
    → IsUnplayed w'
unfolding even_out
even_out-IsUnplayed entry player w w' v h =
    elim (Bool-cases (w.tournament.participant_count % 2 == 1)) [
      | inl odd ↦ refund_last-IsUnplayed entry player w w' v (grind arith)
      | inr even ↦ subst IsUnplayed (grind arith) v
    ]

-- The matches are drawn between the players that are left.
pub record Draws (w w' : World) : Type 0 where
  pub now : w'.tournament.state ≡ running
  pub k :
      w'.tournament.matches_per_player
      ≡ effective_k w'.tournament.participant_count w.tournament.matches_per_player
  pub total :
      w'.tournament.matches_total
      ≡ calculate_match_count w'.tournament.participant_count w'.tournament.matches_per_player
          w'.tournament.randomness_seed
  pub completed : w'.tournament.matches_completed ≡ w.tournament.matches_completed
  pub scores : w'.tournament.scores ≡ w.tournament.scores
  pub entries : w'.entries ≡ w.entries

pub start_matches-Draws :
    (hashes : List ℕ) (w w' : World)
    → 1 ≤ w'.tournament.participant_count
    → start_matches hashes w ≡ ok w'
    → Draws w w'
unfolding start_matches draw_matches skip_matches
start_matches-Draws hashes w w' some_left h = record {
  now = grind arith;
  k = grind arith;
  total = grind arith;
  completed = grind arith;
  scores = grind arith;
  entries = grind arith;
}

add_costs-IsUnplayed :
    (fee : ℕ) (w : World) (t : Tournament)
    → IsUnplayed w
    → add_costs fee w.tournament ≡ ok t
    → IsUnplayed (record w { tournament = t })
unfolding add_costs
add_costs-IsUnplayed fee w t v h =
    let played : t.matches_completed ≡ w.tournament.matches_completed = grind arith in
    let scores : t.scores ≡ w.tournament.scores = grind arith in
    record { completed = played ∙ v.completed; scores = rw scores v.scores; playable = v.playable }

-- When `close_reveal` is accepted on a tournament that is not played yet and leaves 2 to 5000
-- players, the matches run.
pub close_reveal-IsPlaying :
    (signer : Pubkey) (now : ℤ) (hashes : List ℕ) (entry player : Option Pubkey) (w w' : World)
    → IsSoundWorld w
    → IsUnplayed w
    → close_reveal signer now hashes entry player w ≡ ok w'
    → 2 ≤ w'.tournament.participant_count
    → w'.tournament.participant_count ≤ 5000
    → IsPlaying w'
unfolding skip_matches
close_reveal-IsPlaying signer now hashes entry player w w' s v h several allowed =
    let (t, c, st, full, branch) = close_reveal-ok signer now hashes entry player w w' h in
    elim branch [
      | inl (z, e) ↦ absurd (omega (arith, z, ap (λ x. x.tournament.participant_count) e, several))
      | inr (w₁, p, q) ↦
          (let v₀ = add_costs-IsUnplayed w.config.operator_tx_fee w t v c in
            let v₁ = even_out-IsUnplayed entry player (record w { tournament = t }) w₁ v₀ p in
            let d = start_matches-Draws hashes w₁ w' (omega arith) q in
            let none_yet : w'.tournament.matches_completed ≡ 0 = d.completed ∙ v₁.completed in
            record {
              sound = close_reveal-IsSoundWorld signer now hashes entry player w w' s h;
              now = d.now;
              several = several;
              allowed = allowed;
              config_k = w₁.tournament.matches_per_player;
              drawn = d.k;
              total = d.total;
              done = omega (arith, none_yet);
              low = rw (none_yet, d.scores) v₁.scores;
              playable = rw (none_yet, d.entries) v₁.playable;
            })
    ]

-- Where a well-formed tournament that is not played yet goes through any accepted instructions up to
-- an accepted `close_reveal` that leaves 2 to 5000 players, the operator then completes all of its
-- matches, by as many calls of `run_matches` as there are fives of them, or more, each with the
-- accounts of all the active players, if the costs stay a u64.
pub matches_completed-close_reveal :
    (rt : Runtime) (is : List Instruction) (signer : Pubkey) (now : ℤ) (hashes : List ℕ)
    (entry player : Option Pubkey) (w u v : World) (calls : ℕ) (passed : List Pubkey)
    → IsSoundWorld w
    → IsUnplayed w
    → AllTyped is
    → execute_all rt is w ≡ ok u
    → close_reveal signer now hashes entry player u ≡ ok v
    → 2 ≤ v.tournament.participant_count
    → v.tournament.participant_count ≤ 5000
    → PassesAll passed v
    → v.tournament.operator_costs + calls * v.config.operator_tx_fee < 2 ^ 64
    → v.tournament.matches_total ≤ 5 * calls
    → (w' : World) × (crank calls v.config.operator passed v ≡ ok w')
      × IsPlaying w'
      × (w'.tournament.matches_completed ≡ v.tournament.matches_total)
      × (w'.tournament.matches_total ≡ v.tournament.matches_total)
matches_completed-close_reveal rt is signer now hashes entry player w u v calls passed s fresh typed
      h g several allowed all room enough =
    let (before, _) = phase-close_reveal signer now hashes entry player u v g in
    let (s₁, v₁) = execute_all-IsUnplayed rt is w u typed s fresh (omega (arith, before)) h in
    let playing =
      close_reveal-IsPlaying signer now hashes entry player u v s₁ v₁ g several allowed in
    matches_completed-crank calls passed v playing all room (omega (arith, enough))
