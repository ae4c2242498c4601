-- ===== src/Arena/Opening/Start.antt =====
-- The way of a tournament of programs/prisoners-arena from registration into its matches.
use prisoners_arena_program.Base.{
  ◌≤◌, ◌<◌, ◌≡◌, refl, arith, none, some, List, [], ◌∷◌, ok, ap, >>=-eq-ok,
}
use mathlib.Core.Path.{subst}
use prisoners_arena_program.Arena.State.{TournamentState}
use prisoners_arena_program.Arena.World.{Runtime, World}
use prisoners_arena_program.Arena.Admin.{withdraw_fees}
use prisoners_arena_program.Arena.Session.{
  Instruction, updates, withdraws, enters, reveals, claims_refund, claims_payout,
  closes_registration, closes_reveal, forfeits, runs, closes_entry, closes_tournament, execute,
  execute_all,
}
use prisoners_arena_program.Arena.Phases.{
  rank, phase-execute, phase-close_reveal, phase-execute_all,
}
use prisoners_arena_program.Arena.Refusals.{phase_of, execute-phase}
use prisoners_arena_program.Arena.Sound.{IsSoundWorld}
use prisoners_arena_program.Arena.Sound.Reach.{IsTyped, here, next, runs_one, Reach-IsSoundWorld}
use prisoners_arena_program.Arena.Opening.{IsUnplayed}
use prisoners_arena_program.Arena.Opening.Steps.{
  enter_tournament-IsUnplayed, reveal_strategy-IsUnplayed, forfeit_unrevealed-IsUnplayed,
  close_registration-IsUnplayed, claim_refund-IsUnplayed,
}

-- The same tournament and entries.
same_play-IsUnplayed :
    (w w' : World)
    → w'.tournament ≡ w.tournament
    → w'.entries ≡ w.entries
    → IsUnplayed w
    → IsUnplayed w'
same_play-IsUnplayed w w' et ee v = record {
  completed = rw et v.completed;
  scores = rw et v.scores;
  playable = rw ee v.playable;
}

pub updates-keeps :
    (rt : Runtime) (i : Instruction) (w w' : World)
    → phase_of i ≡ none
    → execute rt i w ≡ ok w'
    → (w'.tournament ≡ w.tournament)
      × (w'.entries ≡ w.entries)
      × (w'.tournament_lamports ≡ w.tournament_lamports)
unfolding phase_of execute withdraw_fees
updates-keeps rt (updates signer p) w w' n h = (grind arith, grind arith, grind arith)
updates-keeps rt (withdraws signer) w w' n h = (grind arith, grind arith, grind arith)
updates-keeps rt (enters player c now bump) w w' n h = absurd (cc)
updates-keeps rt (reveals player s salt code now) w w' n h = absurd (cc)
updates-keeps rt (claims_refund player) w w' n h = absurd (cc)
updates-keeps rt (claims_payout player now) w w' n h = absurd (cc)
updates-keeps rt (closes_registration signer now) w w' n h = absurd (cc)
updates-keeps rt (closes_reveal signer now hashes entry player) w w' n h = absurd (cc)
updates-keeps rt (forfeits signer player now hashes) w w' n h = absurd (cc)
updates-keeps rt (runs signer passed) w w' n h = absurd (cc)
updates-keeps rt (closes_entry signer player now) w w' n h = absurd (cc)
updates-keeps rt (closes_tournament signer now) w w' n h = absurd (cc)

-- An instruction of the matches or of the payout does not end in an earlier phase.
too_late :
    (rt : Runtime) (i : Instruction) (w w' : World) {s : TournamentState}
    → phase_of i ≡ some s
    → 2 ≤ rank s
    → rank w'.tournament.state < 2
    → execute rt i w ≡ ok w'
    → ⊥
too_late rt i w w' {s} e lo early h =
    let at : rank w.tournament.state ≡ rank s = ap rank (execute-phase rt i w w' e h) in
    omega (arith, at, phase-execute rt i w w' h)

execute-IsUnplayed :
    (rt : Runtime) (i : Instruction) (w w' : World)
    → rank w'.tournament.state < 2
    → IsUnplayed w
    → execute rt i w ≡ ok w'
    → IsUnplayed w'
unfolding execute phase_of rank
execute-IsUnplayed rt (updates signer p) w w' early v h =
    let (et, ee, _) = updates-keeps rt (updates signer p) w w' refl h in
    same_play-IsUnplayed w w' et ee v
execute-IsUnplayed rt (withdraws signer) w w' early v h =
    let (et, ee, _) = updates-keeps rt (withdraws signer) w w' refl h in
    same_play-IsUnplayed w w' et ee v
execute-IsUnplayed rt (enters player c now bump) w w' early v h =
    enter_tournament-IsUnplayed rt player c now bump w w' v h
execute-IsUnplayed rt (reveals player s salt code now) w w' early v h =
    reveal_strategy-IsUnplayed rt player s salt code now w w' v h
execute-IsUnplayed rt (claims_refund player) w w' early v h =
    claim_refund-IsUnplayed player w w' v h
execute-IsUnplayed rt (claims_payout player now) w w' early v h =
    absurd (too_late rt (claims_payout player now) w w' refl (omega arith) early h)
execute-IsUnplayed rt (closes_registration signer now) w w' early v h =
    close_registration-IsUnplayed signer now w w' v h
execute-IsUnplayed rt (closes_reveal signer now hashes entry player) w w' early v h =
    absurd (omega (arith, phase-close_reveal signer now hashes entry player w w' h))
execute-IsUnplayed rt (forfeits signer player now hashes) w w' early v h =
    forfeit_unrevealed-IsUnplayed signer player now hashes w w' v h
execute-IsUnplayed rt (runs signer passed) w w' early v h =
    absurd (too_late rt (runs signer passed) w w' refl (omega arith) early h)
execute-IsUnplayed rt (closes_entry signer player now) w w' early v h =
    absurd (too_late rt (closes_entry signer player now) w w' refl (omega arith) early h)
execute-IsUnplayed rt (closes_tournament signer now) w w' early v h =
    absurd (too_late rt (closes_tournament signer now) w w' refl (omega arith) early h)

abbrev pub AllTyped : List Instruction → Type 0
AllTyped [] = Unit
AllTyped (i ∷ is) = IsTyped i × AllTyped is

-- What registration and reveal keep.
pub execute_all-IsUnplayed :
    (rt : Runtime) (is : List Instruction) (w w' : World)
    → AllTyped is
    → IsSoundWorld w
    → IsUnplayed w
    → rank w'.tournament.state < 2
    → execute_all rt is w ≡ ok w'
    → IsSoundWorld w' × IsUnplayed w'
unfolding execute_all
execute_all-IsUnplayed rt [] w w' ts s v early h =
    let same : w ≡ w' = grind arith in (subst IsSoundWorld same s, subst IsUnplayed same v)
execute_all-IsUnplayed rt (i ∷ is) w w' (t, ts) s v early h =
    let (w₁, p, q) = >>=-eq-ok (execute rt i w) (execute_all rt is) h in
    let early₁ : rank w₁.tournament.state < 2 =
      omega (arith, phase-execute_all rt is w₁ w' q, early) in
    execute_all-IsUnplayed rt is w₁ w' ts
      (Reach-IsSoundWorld rt w w₁ s (next here (runs_one i t p)))
      (execute-IsUnplayed rt i w w₁ early₁ v p) early q
