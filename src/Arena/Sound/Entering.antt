-- ===== src/Arena/Sound/Entering.antt =====
-- Well-formedness through `enter_tournament` of programs/prisoners-arena.
use prisoners_arena_program.Base.{
  ℕ, ◌+◌, ◌%◌, ◌^◌, ◌<◌, ◌≡◌, refl, arith, none, List, [], ◌∷◌, true, false, ok, length,
  length-append, sym, ◌∙◌,
}
use prisoners_arena_program.Base.Int.{ℤ}
use prisoners_arena_program.Arena.State.{
  Pubkey, Tournament, TournamentState, registration, running, payout, same_state, entry_len,
}
use prisoners_arena_program.Arena.World.{Runtime, EntryAccount, World, find_entry}
use prisoners_arena_program.Arena.Player.{add_player, new_entry, enter_tournament, open_entry}
use prisoners_arena_program.Arena.Sound.{IsSound, IsSoundWorld}
use prisoners_arena_program.Arena.Sound.Slots.{active-append, revealed-append, active-le-length}
use prisoners_arena_program.Arena.Sound.Seats.{Seated-append, get_elem?-last}

-- `same_state` tells the phases apart.
pub registration-not-running :
    (s : TournamentState) → same_state s registration ≡ true → same_state s running ≡ false
registration-not-running s h = ground arith

pub registration-not-payout :
    (s : TournamentState) → same_state s registration ≡ true → same_state s payout ≡ false
registration-not-payout s h = ground arith

add_player-IsSound :
    (t : Tournament) (es : List EntryAccount) (player : Pubkey) (a : EntryAccount)
    → IsSound t es
    → 0 < player
    → find_entry player es ≡ none
    → same_state t.state registration ≡ true
    → length t.players + 1 < 2 ^ 16
    → a.entry.player ≡ player
    → a.entry.index ≡ length t.players
    → a.entry.revealed ≡ false
    → IsSound (add_player player t) (a ∷ es)
unfolding add_player
add_player-IsSound t es player a s pos fresh now room ep ei er = record {
  scores =
      omega
        (arith, length-append t.scores (0 ∷ []), length-append t.players (player ∷ []), s.scores);
  strategies = omega (
    arith,
    length-append t.strategies (255 ∷ []),
    length-append t.players (player ∷ []),
    s.strategies,
  );
  few = omega (arith, length-append t.players (player ∷ []));
  counted =
      omega
        (arith, s.counted, s.few, active-append t.players player pos, active-le-length t.players);
  entered = omega (
    arith,
    s.entered,
    s.few,
    s.opened (registration-not-payout t.state now),
    active-le-length t.players,
  );
  seated = (
    record {
      seat = rw (ei, ep) (get_elem?-last t.players player);
      keyed = rw ep pos;
      sealed = λ _. rw (ei, sym s.strategies) (get_elem?-last t.strategies 255);
    },
    rw ep fresh,
    Seated-append t.players t.strategies player 255 es s.seated,
  );
  opened = λ _.
      omega
        (arith, s.opened (registration-not-payout t.state now), active-append t.players player pos);
  hidden = s.hidden;
  tallied = s.tallied ∙ sym (revealed-append t.players t.strategies player s.strategies);
  complete = λ r. absurd (grind (arith, registration-not-running t.state now, r));
}

-- What an accepted `enter_tournament` has found and done.
pub enter_tournament-ok :
    (rt : Runtime) (player : Pubkey) (c : List ℕ) (now : ℤ) (bump : ℕ) (w w' : World)
    → enter_tournament rt player c now bump w ≡ ok w'
    → (find_entry player w.entries ≡ none)
      × (same_state w.tournament.state registration ≡ true)
      × (length w.tournament.players < w.config.max_participants)
      × (w'.config ≡ w.config)
      × (w'.tournament ≡ add_player player w.tournament)
      × (w'.entries
          ≡ record {
            entry = new_entry player (length w.tournament.players % 2 ^ 32) c now bump;
            lamports = rt.minimum_balance entry_len;
          }
            ∷ w.entries)
unfolding enter_tournament open_entry
enter_tournament-ok rt player c now bump w w' h = grind arith

pub enter_tournament-IsSoundWorld :
    (rt : Runtime) (player : Pubkey) (c : List ℕ) (now : ℤ) (bump : ℕ) (w w' : World)
    → 0 < player
    → IsSoundWorld w
    → enter_tournament rt player c now bump w ≡ ok w'
    → IsSoundWorld w'
unfolding new_entry
enter_tournament-IsSoundWorld rt player c now bump w w' pos s h =
    let (fresh, reg, room, ec, et, ee) = enter_tournament-ok rt player c now bump w w' h in
    record {
      typed = rw ec s.typed;
      sound =
          rw (et, ee)
            (add_player-IsSound w.tournament w.entries player
              (record {
                entry = new_entry player (length w.tournament.players % 2 ^ 32) c now bump;
                lamports = rt.minimum_balance entry_len;
              })
              s.sound pos fresh reg (omega (arith, s.typed)) refl (omega (arith, s.typed)) refl);
    }
