-- ===== src/Arena/Sound/Refunded.antt =====
-- Well-formedness through the refund of the odd player by `close_reveal` of
-- programs/prisoners-arena.
use prisoners_arena_program.Base.{
  ℕ, ◌%◌, ◌^◌, ◌<◌, ◌≡◌, refl, arith, Option, none, some, ok, length, set, ◌==◌, sub_u32,
  Bool-cases, inl, inr, Option-cases, ◌∙◌, ==→eq,
}
use mathlib.Core.Path.{subst}
use prisoners_arena_program.Arena.State.{Pubkey, reveal}
use prisoners_arena_program.Arena.World.{
  EntryAccount, World, find_entry, remove_entry, take_from_tournament,
}
use prisoners_arena_program.Arena.Lamports.{find_entry-player}
use prisoners_arena_program.Arena.Lifecycle.{last_active, refund_last, even_out}
use prisoners_arena_program.Arena.Sound.{IsSoundWorld}
use prisoners_arena_program.Arena.Sound.Slots.{
  active, revealed, revealed-vacate, slot-of_all, active-le-length, get_elem?-paired,
}
use prisoners_arena_program.Arena.Sound.Seats.{Seated-find}
use prisoners_arena_program.Arena.Sound.Refunding.{Vacates-IsSound}

-- A world in the reveal phase in which every active player has a strategy.
pub record IsRevealed (w : World) : Type 0 where
  pub sound : IsSoundWorld w
  pub now : w.tournament.state ≡ reveal
  pub full : w.tournament.reveals_completed ≡ w.tournament.participant_count

pub refund_last-ok :
    (entry player : Option Pubkey) (w w' : World)
    → refund_last entry player w ≡ ok w'
    → (p : Pubkey) × (a : EntryAccount) × (find_entry p w.entries ≡ some a)
      × (i : ℕ) × (a.entry.index ≡ i % 2 ^ 32)
      × (i < length w.tournament.players)
      × (w'.tournament.players ≡ set w.tournament.players i 0)
      × (w'.tournament.strategies ≡ set w.tournament.strategies i 255)
      × (w'.tournament.scores ≡ w.tournament.scores)
      × (w'.tournament.participant_count ≡ sub_u32 w.tournament.participant_count 1)
      × (w'.tournament.entries_remaining ≡ sub_u32 w.tournament.entries_remaining 1)
      × (w'.tournament.reveals_completed ≡ sub_u32 w.tournament.reveals_completed 1)
      × (w'.tournament.state ≡ w.tournament.state)
      × (w'.config ≡ w.config)
      × (w'.entries ≡ remove_entry p w.entries)
unfolding refund_last take_from_tournament
refund_last-ok none player w w' h = absurd (grind arith)
refund_last-ok (some p) player w w' h = elim (Option-cases (find_entry p w.entries)) [
  | inl e ↦ absurd (grind arith)
  | inr (a, f) ↦ elim (Option-cases (last_active w.tournament.players)) [
    | inl e ↦ absurd (grind arith)
    | inr (i, g) ↦
        (let named = find_entry-player p w.entries f in
          (
            p,
            a,
            f,
            i,
            grind arith,
            grind arith,
            grind arith,
            grind arith,
            grind arith,
            grind arith,
            grind arith,
            grind arith,
            grind arith,
            grind arith,
            grind arith,
          ))
  ]
]

refund_last-IsRevealed :
    (entry player : Option Pubkey) (w w' : World)
    → IsRevealed w
    → w.tournament.participant_count % 2 ≡ 1
    → refund_last entry player w ≡ ok w'
    → IsRevealed w'
refund_last-IsRevealed entry player w w' v odd h =
    let (p, a, found, i, at_i, inside, ks, ss, sc, pc, er, rc, st, ec, ee) =
      refund_last-ok entry player w w' h in
    let t = w.tournament in
    let s = v.sound.sound in
    let same : a.entry.index ≡ i = omega (arith, at_i, inside, s.few) in
    let seat = Seated-find t.players t.strategies p w.entries s.seated found in
    let (byte, at_byte) =
      get_elem?-paired t.players t.strategies a.entry.index s.strategies seat.seat in
    let all : revealed t.players t.strategies ≡ active t.players =
      omega (arith, s.tallied, s.counted, v.full) in
    let one = slot-of_all t.players t.strategies a.entry.index all seat.seat at_byte seat.keyed in
    let emptied = revealed-vacate t.players t.strategies a.entry.index seat.seat at_byte in
    let few = active-le-length t.players in
    let here = s.opened (rw v.now refl) in
    record {
      sound = record {
        typed = rw ec v.sound.typed;
        sound = rw ee (
            Vacates-IsSound t w'.tournament w.entries p s found
              (record {
                players = rw same ks;
                strategies = rw same ss;
                scores = sc;
                participants = omega (arith, pc, odd, s.counted, few, s.few);
                entries = omega (arith, er, odd, s.entered, here, s.counted, few, s.few);
                state = st;
              })
              (rw v.now refl) (rw v.now refl) (λ r. absurd (grind (arith, rw (st, v.now) at r)))
              (rw (ks, ss, ← same)
                (omega (arith, rc, emptied, one, s.tallied, odd, v.full, s.counted, few, s.few))));
      };
      now = st ∙ v.now;
      full = omega (arith, rc, pc, v.full);
    }

pub even_out-IsRevealed :
    (entry player : Option Pubkey) (w w' : World)
    → IsRevealed w
    → even_out entry player w ≡ ok w'
    → IsRevealed w'
unfolding even_out
even_out-IsRevealed entry player w w' v h =
    elim (Bool-cases (w.tournament.participant_count % 2 == 1)) [
      | inl odd ↦ refund_last-IsRevealed entry player w w' v (==→eq _ _ odd) (grind arith)
      | inr even ↦ subst IsRevealed (grind arith) v
    ]
