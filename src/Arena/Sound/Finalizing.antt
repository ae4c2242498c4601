-- ===== src/Arena/Sound/Finalizing.antt =====
-- Well-formedness through `finalize_tournament` of programs/prisoners-arena.
use prisoners_arena_program.Base.{
  ℕ, ◌≡◌, refl, arith, ok, length, ◌==◌, ◌⊎◌, Bool-cases, inl, inr, ap, ◌∙◌, Result-cases,
}
use prisoners_arena_program.Base.Int.{ℤ}
use prisoners_arena_program.Arena.State.{Pubkey, Tournament, running, payout, base_space}
use prisoners_arena_program.Arena.World.{Runtime, World, take_from_tournament, charge}
use prisoners_arena_program.Arena.Finalize.{
  collect_fees, reimburse, sweep, award, add_final_costs, finalize_tournament, NextTournament,
}
use prisoners_arena_program.Arena.Lifecycle.{add_costs}
use prisoners_arena_program.Arena.Sound.{IsSoundWorld}
use prisoners_arena_program.Arena.Sound.Revealing.{SameSlots-IsSound}
use prisoners_arena_program.Arena.Sound.Paying.{Moves, SameTournament-IsSoundWorld}

pub award-Moves :
    (rt : Runtime) (operator : Pubkey) (now : ℤ) (w w' : World)
    → award rt operator now w ≡ ok w'
    → Moves (record w { tournament = record w.tournament { state = payout } }) w'
unfolding award collect_fees reimburse take_from_tournament
award-Moves rt operator now w w' h = record {
  players = grind arith;
  strategies = grind arith;
  scores = grind arith;
  participants = grind arith;
  reveals = grind arith;
  remaining = grind arith;
  state = grind arith;
  most = grind arith;
  entries = grind arith;
}

pub sweep-Moves :
    (rt : Runtime) (operator : Pubkey) (now : ℤ) (w w' : World)
    → sweep rt operator now w ≡ ok w'
    → Moves (record w { tournament = record w.tournament { state = payout } }) w'
unfolding sweep collect_fees reimburse take_from_tournament
sweep-Moves rt operator now w w' h = record {
  players = grind arith;
  strategies = grind arith;
  scores = grind arith;
  participants = grind arith;
  reveals = grind arith;
  remaining = grind arith;
  state = grind arith;
  most = grind arith;
  entries = grind arith;
}

pub add_final_costs-Moves :
    (fee : ℕ) (w : World) (t : Tournament)
    → add_final_costs fee w.tournament ≡ ok t
    → Moves w (record w { tournament = t })
unfolding add_final_costs add_costs
add_final_costs-Moves fee w t h = record {
  players = grind arith;
  strategies = grind arith;
  scores = grind arith;
  participants = grind arith;
  reveals = grind arith;
  remaining = grind arith;
  state = grind arith;
  most = refl;
  entries = refl;
}

-- What an accepted `finalize_tournament` has done: `sweep` or `award`, after two payments.
pub finalize_tournament-ok :
    (rt : Runtime) (signer : Pubkey) (now : ℤ) (bump : ℕ) (w w' : World) (n : NextTournament)
    → finalize_tournament rt signer now bump w ≡ ok (w', n)
    → (w.tournament.state ≡ running)
      × (w₀ : World) × (w₂ : World) × (t : Tournament) × (charge signer
            (rt.minimum_balance base_space)
            w
          ≡ ok w₀)
      × (add_final_costs w.config.operator_tx_fee w.tournament ≡ ok t)
      × ((sweep rt signer now (record w₀ { tournament = t }) ≡ ok w₂)
          ⊎ (award rt signer now (record w₀ { tournament = t }) ≡ ok w₂))
      × (w'.tournament ≡ w₂.tournament)
      × (w'.config.max_participants ≡ w₂.config.max_participants)
      × (w'.entries ≡ w₂.entries)
      × (w'.tournament_lamports ≡ w₂.tournament_lamports)
unfolding finalize_tournament
finalize_tournament-ok rt signer now bump w w' n h =
    elim (Result-cases (charge signer (rt.minimum_balance base_space) w)) [
      | inr e ↦ absurd (grind arith)
      | inl (w₀, e₀) ↦ elim (Result-cases (add_final_costs w.config.operator_tx_fee w.tournament)) [
        | inr e ↦ absurd (grind arith)
        | inl (t, e₁) ↦ elim (Bool-cases (t.participant_count == 0)) [
          | inl z ↦ elim (Result-cases (sweep rt signer now (record w₀ { tournament = t }))) [
            | inr e ↦ absurd (grind arith)
            | inl (w₂, e₂) ↦ (
              grind arith,
              w₀,
              w₂,
              t,
              e₀,
              e₁,
              inl e₂,
              grind arith,
              grind arith,
              grind arith,
              grind arith,
            )
          ]
          | inr z ↦ elim (Result-cases (award rt signer now (record w₀ { tournament = t }))) [
            | inr e ↦ absurd (grind arith)
            | inl (w₂, e₂) ↦ (
              grind arith,
              w₀,
              w₂,
              t,
              e₀,
              e₁,
              inr e₂,
              grind arith,
              grind arith,
              grind arith,
              grind arith,
            )
          ]
        ]
      ]
    ]

pub charge-keeps :
    (key amount : ℕ) (w w' : World)
    → charge key amount w ≡ ok w'
    → (w'.config ≡ w.config) × (w'.entries ≡ w.entries)
charge-keeps key amount w w' h = (grind arith, grind arith)

-- Lamports are moved and the tournament goes from the matches to the payout.
Moves-IsSoundWorld :
    (w w' : World)
    → IsSoundWorld w
    → w.tournament.state ≡ running
    → Moves (record w { tournament = record w.tournament { state = payout } }) w'
    → IsSoundWorld w'
Moves-IsSoundWorld w w' v st m = record {
  typed = rw m.most v.typed;
  sound = rw m.entries (
      SameSlots-IsSound w.tournament w'.tournament w.entries v.sound
        (record {
          players = m.players;
          strategies = m.strategies;
          scores = ap length m.scores;
          participants = m.participants;
          entries = m.remaining;
          reveals = m.reveals;
        })
        (λ _. rw st refl) (λ r. absurd (grind (arith, rw m.state at r)))
        (λ _. v.sound.complete (rw st refl)));
}

pub finalize_tournament-IsSoundWorld :
    (rt : Runtime) (signer : Pubkey) (now : ℤ) (bump : ℕ) (w w' : World) (n : NextTournament)
    → IsSoundWorld w
    → finalize_tournament rt signer now bump w ≡ ok (w', n)
    → IsSoundWorld w'
finalize_tournament-IsSoundWorld rt signer now bump w w' n v h =
    let (st, w₀, w₂, t, paid, costs, branch, et, ec, ee, _) =
      finalize_tournament-ok rt signer now bump w w' n h in
    let (c₀, e₀) = charge-keeps signer (rt.minimum_balance base_space) w w₀ paid in
    let m = add_final_costs-Moves w.config.operator_tx_fee w t costs in
    let ready : IsSoundWorld (record w₀ { tournament = t }) = record {
      typed = rw c₀ v.typed;
      sound = rw e₀ (
          SameSlots-IsSound w.tournament t w.entries v.sound
            (record {
              players = m.players;
              strategies = m.strategies;
              scores = ap length m.scores;
              participants = m.participants;
              entries = m.remaining;
              reveals = m.reveals;
            })
            (λ r. rw m.state at r) (λ r. rw m.state at r) (λ _. v.sound.complete (rw st refl)));
    } in
    let moved : Moves (record w₀ { tournament = record t { state = payout } }) w₂ = elim branch [
      | inl e ↦ sweep-Moves rt signer now (record w₀ { tournament = t }) w₂ e
      | inr e ↦ award-Moves rt signer now (record w₀ { tournament = t }) w₂ e
    ] in
    let done = Moves-IsSoundWorld (record w₀ { tournament = t }) w₂ ready (m.state ∙ st) moved in
    SameTournament-IsSoundWorld w₂ w' done et ee (rw ec done.typed)
