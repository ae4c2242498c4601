-- ===== src/Arena/Sound/Refunding.antt =====
-- Well-formedness through `claim_refund` of programs/prisoners-arena.
use prisoners_arena_program.Base.{
  ℕ, ◌+◌, ◌≡◌, arith, some, List, true, false, ok, get_elem?, set, length-set, inl, inr,
  Option-cases, sym, ◌∙◌,
}
use prisoners_arena_program.Arena.State.{
  Pubkey, Tournament, registration, running, payout, same_state,
}
use prisoners_arena_program.Arena.World.{
  EntryAccount, World, find_entry, remove_entry, take_from_tournament,
}
use prisoners_arena_program.Arena.Lamports.{find_entry-player}
use prisoners_arena_program.Arena.Ledger.{checked_sub}
use prisoners_arena_program.Arena.Player.{drop_player, claim_refund}
use prisoners_arena_program.Arena.Sound.{IsSound, IsSoundWorld}
use prisoners_arena_program.Arena.Sound.Slots.{
  active, active-set, revealed, revealed-vacate, get_elem?-paired,
}
use prisoners_arena_program.Arena.Sound.Seats.{Seated-find, Seated-vacate, length-remove_entry}
use prisoners_arena_program.Arena.Sound.Entering.{registration-not-running, registration-not-payout}

-- A tournament with the slot at `i` emptied, and one player and one entry less.
pub record Vacates (t t' : Tournament) (i : ℕ) : Type 0 where
  pub players : t'.players ≡ set t.players i 0
  pub strategies : t'.strategies ≡ set t.strategies i 255
  pub scores : t'.scores ≡ t.scores
  pub participants : t'.participant_count + 1 ≡ t.participant_count
  pub entries : t'.entries_remaining + 1 ≡ t.entries_remaining
  pub state : t'.state ≡ t.state

pub Vacates-IsSound :
    (t t' : Tournament) (es : List EntryAccount) (player : Pubkey) {a : EntryAccount}
    → IsSound t es
    → find_entry player es ≡ some a
    → Vacates t t' a.entry.index
    → same_state t.state running ≡ false
    → same_state t.state payout ≡ false
    → (same_state t'.state registration ≡ true → t'.reveals_completed ≡ 0)
    → t'.reveals_completed ≡ revealed t'.players t'.strategies
    → IsSound t' (remove_entry player es)
Vacates-IsSound t t' es player {a} s found v before_run before_payout hidden tallied =
    let i = a.entry.index in
    let seat = Seated-find t.players t.strategies player es s.seated found in
    let fewer = length-remove_entry player es found in
    let at_seat : get_elem? t.players i ≡ some player =
      rw (find_entry-player player es found) at seat.seat in
    let left : active (set t.players i 0) + 1 ≡ active t.players =
      active-set t.players i seat.seat seat.keyed in
    record {
      scores = rw (v.scores, v.players) (s.scores ∙ sym (length-set t.players i 0));
      strategies =
          rw (v.strategies, v.players)
            (omega (arith, s.strategies, length-set t.strategies i 255, length-set t.players i 0));
      few = rw v.players (omega (arith, s.few, length-set t.players i 0));
      counted = rw v.players (omega (arith, v.participants, s.counted));
      entered = omega (arith, v.entries, s.entered);
      seated =
          rw (v.players, v.strategies)
            (Seated-vacate t.players t.strategies player es 0 255 i s.seated at_seat);
      opened = λ _. rw v.players (omega (arith, s.opened before_payout));
      hidden = hidden;
      tallied = tallied;
      complete = λ r. absurd (grind (arith, rw v.state at r));
    }

pub drop_player-ok :
    (t t' : Tournament) (i : ℕ)
    → drop_player i t ≡ ok t'
    → Vacates t t' i × (t'.reveals_completed ≡ t.reveals_completed)
unfolding drop_player checked_sub
drop_player-ok t t' i h = (
  record {
    players = grind arith;
    strategies = grind arith;
    scores = grind arith;
    participants = grind arith;
    entries = grind arith;
    state = grind arith;
  },
  grind arith,
)

-- During registration nobody is revealed, so the emptied slot had no strategy.
drop_player-IsSound :
    (t t' : Tournament) (es : List EntryAccount) (player : Pubkey) {a : EntryAccount}
    → IsSound t es
    → find_entry player es ≡ some a
    → same_state t.state registration ≡ true
    → drop_player a.entry.index t ≡ ok t'
    → IsSound t' (remove_entry player es)
drop_player-IsSound t t' es player {a} s found now h =
    let (v, same) = drop_player-ok t t' a.entry.index h in
    let seat = Seated-find t.players t.strategies player es s.seated found in
    let (_, byte) = get_elem?-paired t.players t.strategies a.entry.index s.strategies seat.seat in
    let emptied = revealed-vacate t.players t.strategies a.entry.index seat.seat byte in
    let none_yet = s.hidden now in
    Vacates-IsSound t t' es player s found v (registration-not-running t.state now)
      (registration-not-payout t.state now) (λ _. same ∙ none_yet)
      (rw (v.players, v.strategies) (omega (arith, same, none_yet, emptied, s.tallied)))

pub claim_refund-ok :
    (player : Pubkey) (w w' : World)
    → claim_refund player w ≡ ok w'
    → (a : EntryAccount) × (find_entry player w.entries ≡ some a)
      × (same_state w.tournament.state registration ≡ true)
      × (drop_player a.entry.index w.tournament ≡ ok w'.tournament)
      × (w'.config ≡ w.config)
      × (w'.entries ≡ remove_entry player w.entries)
unfolding claim_refund take_from_tournament
claim_refund-ok player w w' h = elim (Option-cases (find_entry player w.entries)) [
  | inl e ↦ absurd (grind arith)
  | inr (a, e) ↦ (a, e, grind arith, grind arith, grind arith, grind arith)
]

pub claim_refund-IsSoundWorld :
    (player : Pubkey) (w w' : World)
    → IsSoundWorld w
    → claim_refund player w ≡ ok w'
    → IsSoundWorld w'
claim_refund-IsSoundWorld player w w' s h =
    let (a, found, now, dropped, ec, ee) = claim_refund-ok player w w' h in
    record {
      typed = rw ec s.typed;
      sound = rw ee (
          drop_player-IsSound w.tournament w'.tournament w.entries player s.sound found now
            dropped);
    }
