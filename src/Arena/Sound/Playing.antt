-- ===== src/Arena/Sound/Playing.antt =====
-- Well-formedness through the matches of programs/prisoners-arena.
use prisoners_arena_program.Base.{
  ℕ, zero, suc, ◌+◌, ◌≡◌, refl, arith, List, ok, length, ◌==◌, length-set, add_u32, sub_u32, min,
  ◌⊎◌, ap, Bool-cases, inl, inr, >>=-eq-ok, sym, ◌∙◌, Result-cases,
}
use mathlib.Core.Path.{subst}
use prisoners_arena_program.Arena.State.{Pubkey, Tournament, Entry, matches_per_tx}
use prisoners_arena_program.Arena.World.{EntryAccount, World, write_entry}
use prisoners_arena_program.Arena.Lamports.{find_entry-player}
use prisoners_arena_program.Arena.Lifecycle.{add_costs}
use prisoners_arena_program.Arena.Running.{
  find_entry_account, add_result, add_score, run_one, run_batch, run_matches, complete_one,
}
use prisoners_arena_program.Arena.Sound.{IsSoundWorld}
use prisoners_arena_program.Arena.Sound.Seats.{
  Seated, Holds, Seated-find, Seated-write, length-write_entry,
}
use prisoners_arena_program.Arena.Sound.Revealing.{SameSlots, SameSlots-IsSound}
use prisoners_arena_program.Arena.Sound.Evening.{add_costs-SameSlots}
use prisoners_arena_program.Arena.Sound.Pairs.{
  Scored, add_result-Scored, add_score-ok, find_entry_account-ok, Pairs, play_pair-Pairs,
  run_one-ok,
}

pub Scored-Holds :
    (ks : List Pubkey) (ss : List ℕ) (n : ℕ) (e e' : Entry)
    → Scored n e e'
    → Holds ks ss e
    → Holds ks ss e'
Scored-Holds ks ss n e e' s h = record {
  seat = rw (s.index, s.player) h.seat;
  keyed = rw s.player h.keyed;
  sealed = λ u. rw s.index (h.sealed (sym s.revealed ∙ u));
}

-- What a match that was played has changed.
record Plays (w w' : World) : Type 0 where
  slots : SameSlots w.tournament w'.tournament
  state : w'.tournament.state ≡ w.tournament.state
  config : w'.config ≡ w.config
  entries : length w'.entries ≡ length w.entries
  seated :
      Seated w.tournament.players w.tournament.strategies w.entries
      → Seated w.tournament.players w.tournament.strategies w'.entries

Plays-IsSoundWorld : (w w' : World) → IsSoundWorld w → Plays w w' → IsSoundWorld w'
Plays-IsSoundWorld w w' v p =
    let s = v.sound in
    record {
      typed = rw p.config v.typed;
      sound =
          SameSlots-IsSound w.tournament w'.tournament w'.entries
            (record {
              scores = s.scores;
              strategies = s.strategies;
              few = s.few;
              counted = s.counted;
              entered = s.entered ∙ sym p.entries;
              seated = p.seated s.seated;
              opened = λ o. p.entries ∙ s.opened o;
              hidden = s.hidden;
              tallied = s.tallied;
              complete = s.complete;
            })
            p.slots (λ r. rw p.state at r) (λ r. rw p.state at r)
            (λ r. s.complete (rw p.state at r));
    }

length-add_score : (i n : ℕ) (ss ss' : List ℕ) → add_score i n ss ≡ ok ss' → length ss' ≡ length ss
length-add_score i n ss ss' h =
    let (old, at, same) = add_score-ok i n ss ss' h in rw same (length-set ss i (old + n))

Pairs-SameSlots :
    (passed : List Pubkey) (x y : ℕ) (a b : Pubkey) (w w' : World)
    → Pairs passed x y a b w w'
    → SameSlots w.tournament w'.tournament
Pairs-SameSlots passed x y a b w w' p = record {
  players = p.same.players;
  strategies = p.same.strategies;
  scores =
      length-add_score y p.score_b p.between w'.tournament.scores p.gained_b
      ∙ length-add_score x p.score_a w.tournament.scores p.between p.gained_a;
  participants = p.same.participants;
  entries = p.same.entries_remaining;
  reveals = p.same.reveals;
}

-- An entry that is found, scored and written back.
pub rescored-Seated :
    (passed : List Pubkey) (w : World) (p : Pubkey) (n : ℕ) (e e' : Entry) (as' : List EntryAccount)
    → Seated w.tournament.players w.tournament.strategies w.entries
    → find_entry_account passed p w ≡ ok e
    → add_result n e ≡ ok e'
    → Seated w.tournament.players w.tournament.strategies as'
    → (e'.player ≡ p)
      × Holds w.tournament.players w.tournament.strategies e
      × Seated w.tournament.players w.tournament.strategies (write_entry p e' as')
rescored-Seated passed w p n e e' as' s found scored s' =
    let ks = w.tournament.players in
    let ss = w.tournament.strategies in
    let (a, f, same) = find_entry_account-ok passed p w e found in
    let c = add_result-Scored n e e' scored in
    let named : e'.player ≡ p =
      c.player ∙ ap (λ x. x.player) (sym same) ∙ find_entry-player p w.entries f in
    let held = subst (Holds ks ss) same (Seated-find ks ss p w.entries s f) in
    (named, held, Seated-write ks ss p e' as' s' (Scored-Holds ks ss n e e' c held) named)

Pairs-Plays :
    (passed : List Pubkey) (x y : ℕ) (a b : Pubkey) (w w' : World)
    → Pairs passed x y a b w w'
    → Plays w w'
Pairs-Plays passed x y a b w w' p = record {
  slots = Pairs-SameSlots passed x y a b w w' p;
  state = p.same.state;
  config = p.same.config;
  entries = rw p.entries (
      length-write_entry b p.after_b (write_entry a p.after_a w.entries)
      ∙ length-write_entry a p.after_a w.entries);
  seated = λ s.
      let (_, _, first) =
        rescored-Seated passed w a p.score_a p.before_a p.after_a w.entries s p.found_a p.result_a
          s in
      let (_, _, second) =
        rescored-Seated passed w b p.score_b p.before_b p.after_b
          (write_entry a p.after_a w.entries) s p.found_b p.result_b first in
      rw p.entries second;
}

-- An empty slot is passed over.
complete_one-Plays : (w : World) → Plays w (complete_one w)
complete_one-Plays w = record {
  slots = record {
    players = refl;
    strategies = refl;
    scores = refl;
    participants = refl;
    entries = refl;
    reveals = refl;
  };
  state = refl;
  config = refl;
  entries = refl;
  seated = λ s. s;
}

pub run_one-IsSoundWorld :
    (passed : List Pubkey) (i : ℕ) (w w' : World)
    → IsSoundWorld w
    → run_one passed i w ≡ ok w'
    → IsSoundWorld w'
run_one-IsSoundWorld passed i w w' v h = elim (run_one-ok passed i w w' h) [
  | inl e ↦
      subst IsSoundWorld (sym e) (Plays-IsSoundWorld w (complete_one w) v (complete_one-Plays w))
  | inr (x, y, a, b, _, e) ↦
      Plays-IsSoundWorld w w' v
        (Pairs-Plays passed x y a b w w' (play_pair-Pairs passed i x y a b w w' e))
]

run_batch-IsSoundWorld :
    (left : ℕ) (passed : List Pubkey) (i : ℕ) (w w' : World)
    → IsSoundWorld w
    → run_batch left passed i w ≡ ok w'
    → IsSoundWorld w'
unfolding run_batch
run_batch-IsSoundWorld zero passed i w w' v h = subst IsSoundWorld (grind arith) v
run_batch-IsSoundWorld (suc left) passed i w w' v h =
    let (w₁, p, q) = >>=-eq-ok (run_one passed i w) (run_batch left passed (add_u32 i 1)) h in
    run_batch-IsSoundWorld left passed (add_u32 i 1) w₁ w' (run_one-IsSoundWorld passed i w w₁ v p)
      q

pub run_matches-ok :
    (signer : Pubkey) (passed : List Pubkey) (w w' : World)
    → run_matches signer passed w ≡ ok w'
    → (w' ≡ w)
      ⊎ ((t : Tournament) × (n : ℕ) × (add_costs w.config.operator_tx_fee w.tournament ≡ ok t)
          × (run_batch n passed t.matches_completed (record w { tournament = t }) ≡ ok w'))
unfolding run_matches
run_matches-ok signer passed w w' h =
    let n =
      min matches_per_tx (sub_u32 w.tournament.matches_total w.tournament.matches_completed) in
    elim (Bool-cases (n == 0)) [
      | inl none_left ↦ inl (grind arith)
      | inr some_left ↦ elim (Result-cases (add_costs w.config.operator_tx_fee w.tournament)) [
        | inr e ↦ absurd (grind arith)
        | inl (t, c) ↦ inr (t, n, c, grind arith)
      ]
    ]

pub add_costs-IsSoundWorld :
    (fee : ℕ) (w : World) (t : Tournament)
    → IsSoundWorld w
    → add_costs fee w.tournament ≡ ok t
    → IsSoundWorld (record w { tournament = t })
add_costs-IsSoundWorld fee w t v c =
    let (same, kept) = add_costs-SameSlots fee w.tournament t c in
    Plays-IsSoundWorld w (record w { tournament = t }) v
      (record { slots = same; state = kept; config = refl; entries = refl; seated = λ s. s })

pub run_matches-IsSoundWorld :
    (signer : Pubkey) (passed : List Pubkey) (w w' : World)
    → IsSoundWorld w
    → run_matches signer passed w ≡ ok w'
    → IsSoundWorld w'
run_matches-IsSoundWorld signer passed w w' v h = elim (run_matches-ok signer passed w w' h) [
  | inl e ↦ subst IsSoundWorld (sym e) v
  | inr (t, n, c, r) ↦
      run_batch-IsSoundWorld n passed t.matches_completed (record w { tournament = t }) w'
        (add_costs-IsSoundWorld w.config.operator_tx_fee w t v c) r
]
