-- ===== src/Arena/Sound/Closing.antt =====
-- Well-formedness through the operator's instructions of the registration and reveal phases of
-- programs/prisoners-arena.
use prisoners_arena_program.Base.{
  ℕ, ◌+◌, ◌%◌, ◌≡◌, refl, arith, some, List, true, false, ok, inl, inr, Option-cases, get_or,
}
use prisoners_arena_program.Base.Int.{ℤ}
use prisoners_arena_program.Arena.State.{
  Pubkey, registration, reveal, Strategy, strategy_index, from_index,
}
use prisoners_arena_program.Arena.World.{EntryAccount, World, find_entry, write_entry}
use prisoners_arena_program.Arena.Lifecycle.{add_costs, close_registration, forfeit_unrevealed}
use prisoners_arena_program.Arena.Sound.{IsSoundWorld}
use prisoners_arena_program.Arena.Sound.Revealing.{
  SameSlots, SameSlots-IsSound, Marks, Marks-IsSound, strategy_index-lt,
}

pub forfeit_unrevealed-ok :
    (signer player : Pubkey) (now : ℤ) (hashes : List ℕ) (w w' : World)
    → forfeit_unrevealed signer player now hashes w ≡ ok w'
    → (a : EntryAccount) × (s : Strategy) × (find_entry player w.entries ≡ some a)
      × (a.entry.revealed ≡ false)
      × Marks w.tournament w'.tournament a.entry.index (strategy_index s)
      × (w'.config ≡ w.config)
      × (w'.entries
          ≡ write_entry player (record a.entry { strategy = s; revealed = true }) w.entries)
unfolding forfeit_unrevealed add_costs
forfeit_unrevealed-ok signer player now hashes w w' h =
    elim (Option-cases (find_entry player w.entries)) [
      | inl e ↦ absurd (grind arith)
      | inr (a, f) ↦
          elim (Option-cases (from_index (get_or hashes (16 + a.entry.index % 32) 0 % 9))) [
            | inl e ↦ absurd (grind arith)
            | inr (s, c) ↦ (
              a,
              s,
              f,
              grind arith,
              record {
                players = grind arith;
                strategies = grind arith;
                scores = grind arith;
                participants = grind arith;
                entries = grind arith;
                reveals = grind arith;
                before = grind arith;
                after = grind arith;
              },
              grind arith,
              grind arith,
            )
          ]
    ]

pub forfeit_unrevealed-IsSoundWorld :
    (signer player : Pubkey) (now : ℤ) (hashes : List ℕ) (w w' : World)
    → IsSoundWorld w
    → forfeit_unrevealed signer player now hashes w ≡ ok w'
    → IsSoundWorld w'
forfeit_unrevealed-IsSoundWorld signer player now hashes w w' v h =
    let (a, s, found, closed, m, ec, ee) = forfeit_unrevealed-ok signer player now hashes w w' h in
    record {
      typed = rw ec v.typed;
      sound = rw ee (
          Marks-IsSound w.tournament w'.tournament w.entries player
            (record a.entry { strategy = s; revealed = true }) (strategy_index s) v.sound found
            closed (strategy_index-lt s) m refl refl refl);
    }

pub close_registration-ok :
    (signer : Pubkey) (now : ℤ) (w w' : World)
    → close_registration signer now w ≡ ok w'
    → SameSlots w.tournament w'.tournament
      × (w.tournament.state ≡ registration)
      × (w'.tournament.state ≡ reveal)
      × (w'.config ≡ w.config)
      × (w'.entries ≡ w.entries)
unfolding close_registration add_costs
close_registration-ok signer now w w' h = (
  record {
    players = grind arith;
    strategies = grind arith;
    scores = grind arith;
    participants = grind arith;
    entries = grind arith;
    reveals = grind arith;
  },
  grind arith,
  grind arith,
  grind arith,
  grind arith,
)

pub close_registration-IsSoundWorld :
    (signer : Pubkey) (now : ℤ) (w w' : World)
    → IsSoundWorld w
    → close_registration signer now w ≡ ok w'
    → IsSoundWorld w'
close_registration-IsSoundWorld signer now w w' v h =
    let (e, before, after, ec, ee) = close_registration-ok signer now w w' h in
    record {
      typed = rw ec v.typed;
      sound = rw ee (
          SameSlots-IsSound w.tournament w'.tournament w.entries v.sound e (λ _. rw before refl)
            (λ _. rw before refl) (λ r. absurd (grind (arith, rw after at r))));
    }
