-- ===== src/Arena/Sound/Revealing.antt =====
-- Well-formedness through the reveal phase of programs/prisoners-arena.
use prisoners_arena_program.Base.{
  ℕ, ◌<◌, ◌≡◌, refl, arith, Option, some, List, true, false, ok, length, get_elem?, set, length-set,
  add_u32, inl, inr, Option-cases, sym, ◌∙◌, Result-cases,
}
use prisoners_arena_program.Base.Int.{ℤ}
use prisoners_arena_program.Arena.State.{
  Pubkey, Tournament, registration, reveal, running, payout, same_state, Entry, Strategy,
  strategy_index,
}
use prisoners_arena_program.Arena.World.{Runtime, EntryAccount, World, find_entry, write_entry}
use prisoners_arena_program.Arena.Lamports.{find_entry-player}
use prisoners_arena_program.Arena.Player.{reveal_strategy, check_commitment}
use prisoners_arena_program.Arena.Sound.{IsSound, IsSoundWorld}
use prisoners_arena_program.Arena.Sound.Slots.{revealed-mark, revealed-le-active, active-le-length}
use prisoners_arena_program.Arena.Sound.Seats.{Seated-find, Seated-mark, length-write_entry}

-- Two tournaments with the same slots and counters of players.
pub record SameSlots (t t' : Tournament) : Type 0 where
  pub players : t'.players ≡ t.players
  pub strategies : t'.strategies ≡ t.strategies
  pub scores : length t'.scores ≡ length t.scores
  pub participants : t'.participant_count ≡ t.participant_count
  pub entries : t'.entries_remaining ≡ t.entries_remaining
  pub reveals : t'.reveals_completed ≡ t.reveals_completed

pub SameSlots-IsSound :
    (t t' : Tournament) (es : List EntryAccount)
    → IsSound t es
    → SameSlots t t'
    → (same_state t'.state payout ≡ false → same_state t.state payout ≡ false)
    → (same_state t'.state registration ≡ true → same_state t.state registration ≡ true)
    → (same_state t'.state running ≡ true → t.reveals_completed ≡ t.participant_count)
    → IsSound t' es
SameSlots-IsSound t t' es s e unpaid early late = record {
  scores = rw e.players (e.scores ∙ s.scores);
  strategies = rw (e.players, e.strategies) s.strategies;
  few = rw e.players s.few;
  counted = rw e.players (e.participants ∙ s.counted);
  entered = e.entries ∙ s.entered;
  seated = rw (e.players, e.strategies) s.seated;
  opened = λ o. rw e.players (s.opened (unpaid o));
  hidden = λ h. e.reveals ∙ s.hidden (early h);
  tallied = rw (e.players, e.strategies) (e.reveals ∙ s.tallied);
  complete = λ c. e.reveals ∙ late c ∙ sym e.participants;
}

-- A tournament in the reveal phase with a strategy in the slot at `i`.
pub record Marks (t t' : Tournament) (i s : ℕ) : Type 0 where
  pub players : t'.players ≡ t.players
  pub strategies : t'.strategies ≡ set t.strategies i s
  pub scores : t'.scores ≡ t.scores
  pub participants : t'.participant_count ≡ t.participant_count
  pub entries : t'.entries_remaining ≡ t.entries_remaining
  pub reveals : t'.reveals_completed ≡ add_u32 t.reveals_completed 1
  pub before : t.state ≡ reveal
  pub after : t'.state ≡ reveal

pub Marks-IsSound :
    (t t' : Tournament) (es : List EntryAccount) (player : Pubkey) (e : Entry) (s : ℕ)
    {a : EntryAccount}
    → IsSound t es
    → find_entry player es ≡ some a
    → a.entry.revealed ≡ false
    → s < 255
    → Marks t t' a.entry.index s
    → e.player ≡ a.entry.player
    → e.index ≡ a.entry.index
    → e.revealed ≡ true
    → IsSound t' (write_entry player e es)
Marks-IsSound t t' es player e s {a} v found closed small m ep ei er =
    let i = a.entry.index in
    let seat = Seated-find t.players t.strategies player es v.seated found in
    let named = find_entry-player player es found in
    let at_seat : get_elem? t.players i ≡ some player = rw named at seat.seat in
    let more =
      revealed-mark t.players t.strategies i s seat.seat seat.keyed (seat.sealed closed) small in
    record {
      scores = rw (m.scores, m.players) v.scores;
      strategies = rw (m.strategies, m.players) (length-set t.strategies i s ∙ v.strategies);
      few = rw m.players v.few;
      counted = rw m.players (m.participants ∙ v.counted);
      entered = m.entries ∙ v.entered ∙ sym (length-write_entry player e es);
      seated =
          rw (m.players, m.strategies)
            (Seated-mark t.players t.strategies player e i s es v.seated at_seat
              (record {
                seat = rw (ei, ep) seat.seat;
                keyed = rw ep seat.keyed;
                sealed = λ u. absurd (cc);
              })
              (ep ∙ named));
      opened = λ _. rw m.players (length-write_entry player e es ∙ v.opened (rw m.before refl));
      hidden = λ r. absurd (grind (arith, rw m.after at r));
      tallied =
          rw (m.players, m.strategies)
            (omega (
              arith,
              m.reveals,
              more,
              v.tallied,
              v.few,
              revealed-le-active t.players t.strategies,
              active-le-length t.players,
            ));
      complete = λ r. absurd (grind (arith, rw m.after at r));
    }

pub strategy_index-lt : (s : Strategy) → strategy_index s < 255
unfolding strategy_index
strategy_index-lt s = ground arith

-- The entry that is revealed keeps its player and its index, in either branch.
check_commitment-ok :
    (rt : Runtime) (s : Strategy) (salt : List ℕ) (code : Option (List ℕ)) (e e' : Entry)
    → check_commitment rt s salt code e ≡ ok e'
    → (e'.player ≡ e.player) × (e'.index ≡ e.index)
unfolding check_commitment
check_commitment-ok rt s salt code e e' h = grind arith

reveal_strategy-ok :
    (rt : Runtime) (player : Pubkey) (s : Strategy) (salt : List ℕ) (code : Option (List ℕ))
    (now : ℤ) (w w' : World)
    → reveal_strategy rt player s salt code now w ≡ ok w'
    → (a : EntryAccount) × (e : Entry) × (find_entry player w.entries ≡ some a)
      × (a.entry.revealed ≡ false)
      × (e.player ≡ a.entry.player)
      × (e.index ≡ a.entry.index)
      × Marks w.tournament w'.tournament a.entry.index (strategy_index s)
      × (w'.config ≡ w.config)
      × (w'.entries ≡ write_entry player (record e { strategy = s; revealed = true }) w.entries)
unfolding reveal_strategy
reveal_strategy-ok rt player s salt code now w w' h =
    elim (Option-cases (find_entry player w.entries)) [
      | inl e ↦ absurd (grind arith)
      | inr (a, f) ↦ elim (Result-cases (check_commitment rt s salt code a.entry)) [
        | inr e ↦ absurd (grind arith)
        | inl (e, c) ↦
            (let (same, at_index) = check_commitment-ok rt s salt code a.entry e c in
              (
                a,
                e,
                f,
                grind arith,
                same,
                at_index,
                record {
                  players = grind arith;
                  strategies = grind arith;
                  scores = grind arith;
                  participants = grind arith;
                  entries = grind arith;
                  reveals = grind arith;
                  before = grind arith;
                  after = grind arith;
                },
                grind arith,
                grind arith,
              ))
      ]
    ]

pub reveal_strategy-IsSoundWorld :
    (rt : Runtime) (player : Pubkey) (s : Strategy) (salt : List ℕ) (code : Option (List ℕ))
    (now : ℤ) (w w' : World)
    → IsSoundWorld w
    → reveal_strategy rt player s salt code now w ≡ ok w'
    → IsSoundWorld w'
reveal_strategy-IsSoundWorld rt player s salt code now w w' v h =
    let (a, e, found, closed, ep, ei, m, ec, ee) =
      reveal_strategy-ok rt player s salt code now w w' h in
    record {
      typed = rw ec v.typed;
      sound = rw ee (
          Marks-IsSound w.tournament w'.tournament w.entries player
            (record e { strategy = s; revealed = true }) (strategy_index s) v.sound found closed
            (strategy_index-lt s) m ep ei refl);
    }
