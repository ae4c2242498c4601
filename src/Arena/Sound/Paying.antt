-- ===== src/Arena/Sound/Paying.antt =====
-- Well-formedness through the payout of programs/prisoners-arena.
use prisoners_arena_program.Base.{
  ◌+◌, ◌-◌, ◌^◌, ◌<◌, ◌≡◌, refl, arith, some, ok, Bool-cases, inl, inr, Option-cases, ◌∙◌,
  Result-cases,
}
use prisoners_arena_program.Base.Int.{ℤ}
use prisoners_arena_program.Arena.State.{Pubkey, payout}
use prisoners_arena_program.Arena.World.{
  Runtime, EntryAccount, World, find_entry, remove_entry, take_from_tournament,
}
use prisoners_arena_program.Arena.Ledger.{checked_sub}
use prisoners_arena_program.Arena.Player.{claim_payout}
use prisoners_arena_program.Arena.Finalize.{collect_fees}
use prisoners_arena_program.Arena.Closing.{settle, is_unpaid_winner, close_entry, close_tournament}
use prisoners_arena_program.Arena.Sound.{IsSoundWorld}
use prisoners_arena_program.Arena.Sound.Seats.{Seated-remove, length-remove_entry}

-- One entry less, in the payout phase.
pub record Leaves (player : Pubkey) (w w' : World) : Type 0 where
  pub account : EntryAccount
  pub found : find_entry player w.entries ≡ some account
  pub players : w'.tournament.players ≡ w.tournament.players
  pub strategies : w'.tournament.strategies ≡ w.tournament.strategies
  pub scores : w'.tournament.scores ≡ w.tournament.scores
  pub participants : w'.tournament.participant_count ≡ w.tournament.participant_count
  pub reveals : w'.tournament.reveals_completed ≡ w.tournament.reveals_completed
  pub remaining : w'.tournament.entries_remaining + 1 ≡ w.tournament.entries_remaining
  pub before : w.tournament.state ≡ payout
  pub after : w'.tournament.state ≡ payout
  pub most : w'.config.max_participants ≡ w.config.max_participants
  pub entries : w'.entries ≡ remove_entry player w.entries

Leaves-IsSoundWorld :
    (player : Pubkey) (w w' : World) → IsSoundWorld w → Leaves player w w' → IsSoundWorld w'
Leaves-IsSoundWorld player w w' v l =
    let s = v.sound in
    let fewer = length-remove_entry player w.entries l.found in
    record {
      typed = rw l.most v.typed;
      sound = record {
        scores = rw (l.scores, l.players) s.scores;
        strategies = rw (l.strategies, l.players) s.strategies;
        few = rw l.players s.few;
        counted = rw l.players (l.participants ∙ s.counted);
        entered = rw l.entries (omega (arith, l.remaining, s.entered, fewer));
        seated =
            rw (l.players, l.strategies, l.entries)
              (Seated-remove w.tournament.players w.tournament.strategies player w.entries
                s.seated);
        opened = λ o. absurd (grind (arith, rw l.after at o));
        hidden = λ o. absurd (grind (arith, rw l.after at o));
        tallied = rw (l.players, l.strategies) (l.reveals ∙ s.tallied);
        complete = λ o. absurd (grind (arith, rw l.after at o));
      };
    }

pub claim_payout-Leaves :
    (player : Pubkey) (now : ℤ) (w w' : World)
    → claim_payout player now w ≡ ok w'
    → Leaves player w w'
unfolding claim_payout take_from_tournament checked_sub
claim_payout-Leaves player now w w' h = elim (Option-cases (find_entry player w.entries)) [
  | inl e ↦ absurd (grind arith)
  | inr (a, f) ↦ record {
    account = a;
    found = f;
    players = grind arith;
    strategies = grind arith;
    scores = grind arith;
    participants = grind arith;
    reveals = grind arith;
    remaining = grind arith;
    before = grind arith;
    after = grind arith;
    most = grind arith;
    entries = grind arith;
  }
]

pub claim_payout-IsSoundWorld :
    (player : Pubkey) (now : ℤ) (w w' : World)
    → IsSoundWorld w
    → claim_payout player now w ≡ ok w'
    → IsSoundWorld w'
claim_payout-IsSoundWorld player now w w' v h =
    Leaves-IsSoundWorld player w w' v (claim_payout-Leaves player now w w' h)

-- Lamports are moved; the slots, the phase, the entries and the number of entries stay.
pub record Moves (w w' : World) : Type 0 where
  pub players : w'.tournament.players ≡ w.tournament.players
  pub strategies : w'.tournament.strategies ≡ w.tournament.strategies
  pub scores : w'.tournament.scores ≡ w.tournament.scores
  pub participants : w'.tournament.participant_count ≡ w.tournament.participant_count
  pub reveals : w'.tournament.reveals_completed ≡ w.tournament.reveals_completed
  pub remaining : w'.tournament.entries_remaining ≡ w.tournament.entries_remaining
  pub state : w'.tournament.state ≡ w.tournament.state
  pub most : w'.config.max_participants ≡ w.config.max_participants
  pub entries : w'.entries ≡ w.entries

settle-Moves :
    (rt : Runtime) (player : Pubkey) (now : ℤ) (w w' : World)
    → settle rt player now w ≡ ok w'
    → Moves w w'
unfolding settle collect_fees take_from_tournament
settle-Moves rt player now w w' h = record {
  players = grind arith;
  strategies = grind arith;
  scores = grind arith;
  participants = grind arith;
  reveals = grind arith;
  remaining = grind arith;
  state = grind arith;
  most = grind arith;
  entries = grind arith;
}

Moves-refl : (w : World) → Moves w w
Moves-refl w = record {
  players = refl;
  strategies = refl;
  scores = refl;
  participants = refl;
  reveals = refl;
  remaining = refl;
  state = refl;
  most = refl;
  entries = refl;
}

close_entry-Moves :
    (rt : Runtime) (signer player : Pubkey) (now : ℤ) (w w' : World)
    → close_entry rt signer player now w ≡ ok w'
    → (a : EntryAccount) × (w₁ : World) × (find_entry player w.entries ≡ some a)
      × (w.tournament.state ≡ payout)
      × Moves w w₁
      × (0 < w₁.tournament.entries_remaining)
      × (w'.tournament
          ≡ record w₁.tournament { entries_remaining = w₁.tournament.entries_remaining - 1 })
      × (w'.config ≡ w₁.config)
      × (w'.entries ≡ remove_entry player w₁.entries)
unfolding close_entry checked_sub
close_entry-Moves rt signer player now w w' h = elim (Option-cases (find_entry player w.entries)) [
  | inl e ↦ absurd (grind arith)
  | inr (a, f) ↦ elim (Bool-cases (is_unpaid_winner w.tournament a.entry)) [
    | inr paid ↦
        (a, w, f, grind arith, Moves-refl w, grind arith, grind arith, grind arith, grind arith)
    | inl unpaid ↦ elim (Result-cases (settle rt player now w)) [
      | inr e ↦ absurd (grind arith)
      | inl (w₁, e) ↦ (
        a,
        w₁,
        f,
        grind arith,
        settle-Moves rt player now w w₁ e,
        grind arith,
        grind arith,
        grind arith,
        grind arith,
      )
    ]
  ]
]

pub close_entry-Leaves :
    (rt : Runtime) (signer player : Pubkey) (now : ℤ) (w w' : World)
    → close_entry rt signer player now w ≡ ok w'
    → Leaves player w w'
close_entry-Leaves rt signer player now w w' h =
    let (a, w₁, found, st, m, several, et, ec, ee) =
      close_entry-Moves rt signer player now w w' h in
    record {
      account = a;
      found = found;
      players = rw et m.players;
      strategies = rw et m.strategies;
      scores = rw et m.scores;
      participants = rw et m.participants;
      reveals = rw et m.reveals;
      remaining = rw et (omega (arith, several, m.remaining));
      before = st;
      after = rw et (m.state ∙ st);
      most = rw ec m.most;
      entries = rw (ee, m.entries) refl;
    }

pub close_entry-IsSoundWorld :
    (rt : Runtime) (signer player : Pubkey) (now : ℤ) (w w' : World)
    → IsSoundWorld w
    → close_entry rt signer player now w ≡ ok w'
    → IsSoundWorld w'
close_entry-IsSoundWorld rt signer player now w w' v h =
    Leaves-IsSoundWorld player w w' v (close_entry-Leaves rt signer player now w w' h)

-- A world with the same tournament, entries and limit of players.
pub SameTournament-IsSoundWorld :
    (w w' : World)
    → IsSoundWorld w
    → w'.tournament ≡ w.tournament
    → w'.entries ≡ w.entries
    → w'.config.max_participants < 2 ^ 16
    → IsSoundWorld w'
SameTournament-IsSoundWorld w w' v et ee room = record { typed = room; sound = rw (et, ee) v.sound }

pub close_tournament-IsSoundWorld :
    (signer : Pubkey) (now : ℤ) (w w' : World)
    → IsSoundWorld w
    → close_tournament signer now w ≡ ok w'
    → IsSoundWorld w'
unfolding close_tournament
close_tournament-IsSoundWorld signer now w w' v h =
    SameTournament-IsSoundWorld w w' v (grind arith) (grind arith) (grind (arith, v.typed))
