-- ===== src/Arena/Sound/Evening.antt =====
-- Well-formedness through `close_reveal` of programs/prisoners-arena.
use prisoners_arena_program.Base.{
  ℕ, ◌≡◌, refl, arith, Option, List, ok, ◌==◌, ◌⊎◌, Bool-cases, inl, inr, sym, ◌∙◌, Result-cases,
}
use mathlib.Core.Path.{subst}
use prisoners_arena_program.Base.Int.{ℤ}
use prisoners_arena_program.Arena.State.{Pubkey, Tournament, reveal, running}
use prisoners_arena_program.Arena.World.{World}
use prisoners_arena_program.Arena.Lifecycle.{
  add_costs, close_reveal, even_out, start_matches, draw_matches, skip_matches,
}
use prisoners_arena_program.Arena.Sound.{IsSoundWorld}
use prisoners_arena_program.Arena.Sound.Revealing.{SameSlots, SameSlots-IsSound}
use prisoners_arena_program.Arena.Sound.Refunded.{IsRevealed, even_out-IsRevealed}

pub start_matches-ok :
    (hashes : List ℕ) (w w' : World)
    → start_matches hashes w ≡ ok w'
    → SameSlots w.tournament w'.tournament
      × (w'.tournament.state ≡ running)
      × (w'.config ≡ w.config)
      × (w'.entries ≡ w.entries)
unfolding start_matches draw_matches skip_matches
start_matches-ok hashes w w' h = (
  record {
    players = grind arith;
    strategies = grind arith;
    scores = grind arith;
    participants = grind arith;
    entries = grind arith;
    reveals = grind arith;
  },
  grind arith,
  grind arith,
  grind arith,
)

-- From the reveal phase to the matches, with the same slots and counters.
starts-IsSoundWorld :
    (w w' : World)
    → IsRevealed w
    → SameSlots w.tournament w'.tournament
    → w'.tournament.state ≡ running
    → w'.config ≡ w.config
    → w'.entries ≡ w.entries
    → IsSoundWorld w'
starts-IsSoundWorld w w' v e st ec ee = record {
  typed = rw ec v.sound.typed;
  sound = rw ee (
      SameSlots-IsSound w.tournament w'.tournament w.entries v.sound.sound e (λ _. rw v.now refl)
        (λ r. absurd (grind (arith, rw st at r))) (λ _. v.full));
}

-- The costs of the operator do not touch the slots.
pub add_costs-SameSlots :
    (fee : ℕ) (t t' : Tournament) → add_costs fee t ≡ ok t' → SameSlots t t' × (t'.state ≡ t.state)
unfolding add_costs
add_costs-SameSlots fee t t' h = (
  record {
    players = grind arith;
    strategies = grind arith;
    scores = grind arith;
    participants = grind arith;
    entries = grind arith;
    reveals = grind arith;
  },
  grind arith,
)

pub close_reveal-ok :
    (signer : Pubkey) (now : ℤ) (hashes : List ℕ) (entry player : Option Pubkey) (w w' : World)
    → close_reveal signer now hashes entry player w ≡ ok w'
    → (t : Tournament) × (add_costs w.config.operator_tx_fee w.tournament ≡ ok t)
      × (w.tournament.state ≡ reveal)
      × (t.reveals_completed ≡ t.participant_count)
      × ((t.participant_count ≡ 0) × (w' ≡ record w { tournament = skip_matches t })
          ⊎ ((w₁ : World) × (even_out entry player (record w { tournament = t }) ≡ ok w₁)
              × (start_matches hashes w₁ ≡ ok w')))
unfolding close_reveal
close_reveal-ok signer now hashes entry player w w' h =
    elim (Result-cases (add_costs w.config.operator_tx_fee w.tournament)) [
      | inr e ↦ absurd (grind arith)
      | inl (t, c) ↦ (
        t,
        c,
        grind arith,
        grind arith,
        elim (Bool-cases (t.participant_count == 0)) [
          | inl z ↦ inl (grind arith, grind arith)
          | inr some_left ↦
              elim (Result-cases (even_out entry player (record w { tournament = t }))) [
                | inr e ↦ absurd (grind arith)
                | inl (w₁, c₁) ↦ inr (w₁, c₁, grind arith)
              ]
        ],
      )
    ]

pub close_reveal-IsSoundWorld :
    (signer : Pubkey) (now : ℤ) (hashes : List ℕ) (entry player : Option Pubkey) (w w' : World)
    → IsSoundWorld w
    → close_reveal signer now hashes entry player w ≡ ok w'
    → IsSoundWorld w'
unfolding skip_matches
close_reveal-IsSoundWorld signer now hashes entry player w w' v h =
    let (t, c, st, full, next) = close_reveal-ok signer now hashes entry player w w' h in
    let (same, kept) = add_costs-SameSlots w.config.operator_tx_fee w.tournament t c in
    let ready : IsRevealed (record w { tournament = t }) = record {
      sound = record {
        typed = v.typed;
        sound =
            SameSlots-IsSound w.tournament t w.entries v.sound same (λ _. rw st refl)
              (λ r. absurd (grind (arith, rw (kept, st) at r)))
              (λ r. absurd (grind (arith, rw (kept, st) at r)));
      };
      now = kept ∙ st;
      full = full;
    } in
    elim next [
      | inl (z, e) ↦ subst IsSoundWorld (sym e) (
          starts-IsSoundWorld (record w { tournament = t })
            (record w { tournament = skip_matches t }) ready
            (record {
              players = refl;
              strategies = refl;
              scores = refl;
              participants = refl;
              entries = refl;
              reveals = refl;
            })
            refl refl refl)
      | inr (w₁, p, q) ↦
          (let evened = even_out-IsRevealed entry player (record w { tournament = t }) w₁ ready p in
            let (e, running_now, ec, ee) = start_matches-ok hashes w₁ w' q in
            starts-IsSoundWorld w₁ w' evened e running_now ec ee)
    ]
