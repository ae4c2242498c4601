-- ===== src/Arena/Opening/Steps.antt =====
-- The instructions of programs/prisoners-arena in registration and reveal, on a tournament that is
-- not played yet.
use prisoners_arena_program.Base.{
  ℕ, ◌≤◌, ◌≡◌, arith, true, Option, List, [], ◌∷◌, ◌++◌, ok, length, drop, length-append,
  Bool-cases, Option-cases, inl, inr, ◌==◌, ◌∙◌,
}
use mathlib.Core.Path.{subst}
use prisoners_arena_program.Base.Int.{ℤ}
use prisoners_arena_program.Arena.State.{Pubkey, Tournament, Entry, Strategy, is_custom}
use prisoners_arena_program.Arena.World.{Runtime, World, EntryAccount, remove_entry}
use prisoners_arena_program.Arena.Player.{
  enter_tournament, new_entry, add_player, reveal_strategy, check_commitment, store_code,
  claim_refund, drop_player,
}
use prisoners_arena_program.Arena.Lifecycle.{add_costs, close_registration, forfeit_unrevealed}
use prisoners_arena_program.Arena.Sound.Entering.{enter_tournament-ok}
use prisoners_arena_program.Arena.Sound.Refunding.{claim_refund-ok}
use prisoners_arena_program.Arena.Sound.Closing.{forfeit_unrevealed-ok}
use prisoners_arena_program.Arena.Commitment.{reveal_strategy-result, revealed_world}
use prisoners_arena_program.Arena.Progress.Lookup.{
  AllLe, IsPlayable, AllPlayable, AllPlayable-find, AllPlayable-write,
}
use prisoners_arena_program.Arena.Opening.{IsUnplayed}

AllLe-append : (b v : ℕ) (xs : List ℕ) → v ≤ b → AllLe b xs → AllLe b (xs ++ v ∷ [])
AllLe-append b v [] h p = (h, tt)
AllLe-append b v (x ∷ xs) h (p, q) = (p, AllLe-append b v xs h q)

pub AllPlayable-remove :
    (b : ℕ) (player : Pubkey) (as' : List EntryAccount)
    → AllPlayable b as'
    → AllPlayable b (remove_entry player as')
unfolding remove_entry
AllPlayable-remove b player [] p = tt
AllPlayable-remove b player (x ∷ as') (p, q) = elim (Bool-cases (x.entry.player == player)) [
  | inl same ↦ rw same q
  | inr other ↦ rw other (p, AllPlayable-remove b player as' q)
]

new_entry-IsPlayable :
    (player : Pubkey) (index : ℕ) (c : List ℕ) (now : ℤ) (bump : ℕ)
    → IsPlayable 0 (new_entry player index c now bump)
unfolding new_entry
new_entry-IsPlayable player index c now bump = record { low = omega arith; fits = omega arith }

pub enter_tournament-IsUnplayed :
    (rt : Runtime) (player : Pubkey) (c : List ℕ) (now : ℤ) (bump : ℕ) (w w' : World)
    → IsUnplayed w
    → enter_tournament rt player c now bump w ≡ ok w'
    → IsUnplayed w'
unfolding add_player
enter_tournament-IsUnplayed rt player c now bump w w' v h =
    let (_, _, _, _, et, ee) = enter_tournament-ok rt player c now bump w w' h in
    record {
      completed = rw et v.completed;
      scores = rw et (AllLe-append 0 0 w.tournament.scores (omega arith) v.scores);
      playable = rw ee (new_entry-IsPlayable player _ c now bump, v.playable);
    }

-- A program that is stored fits its array.
check_commitment-IsPlayable :
    (rt : Runtime) (s : Strategy) (salt : List ℕ) (code : Option (List ℕ)) (e e' : Entry)
    → IsPlayable 0 e
    → check_commitment rt s salt code e ≡ ok e'
    → IsPlayable 0 e'
unfolding check_commitment
check_commitment-IsPlayable rt s salt code e e' v h = elim (Bool-cases (is_custom s)) [
  | inr b ↦ subst (IsPlayable 0) (grind arith) v
  | inl c ↦ elim (Option-cases code) [
    | inl n ↦ absurd (grind arith)
    | inr (xs, f) ↦
        (let stored : store_code xs e ≡ e' = grind arith in
          subst (IsPlayable 0) stored (record {
            low = v.low;
            fits = omega (arith, length-append xs (drop (length xs) e.bytecode));
          }))
  ]
]

pub reveal_strategy-IsUnplayed :
    (rt : Runtime) (player : Pubkey) (s : Strategy) (salt : List ℕ) (code : Option (List ℕ))
    (now : ℤ) (w w' : World)
    → IsUnplayed w
    → reveal_strategy rt player s salt code now w ≡ ok w'
    → IsUnplayed w'
unfolding revealed_world
reveal_strategy-IsUnplayed rt player s salt code now w w' v h =
    let (a, e, ss, f, c, d, eu) = reveal_strategy-result rt player s salt code now w w' h in
    let p =
      check_commitment-IsPlayable rt s salt code a.entry e
        (AllPlayable-find 0 player w.entries v.playable f) c in
    rw eu (record {
      completed = v.completed;
      scores = v.scores;
      playable =
          AllPlayable-write 0 player (record e { strategy = s; revealed = true }) w.entries
            v.playable (record { low = p.low; fits = p.fits });
    })

matches_completed-forfeit_unrevealed :
    (signer player : Pubkey) (now : ℤ) (hashes : List ℕ) (w w' : World)
    → forfeit_unrevealed signer player now hashes w ≡ ok w'
    → w'.tournament.matches_completed ≡ w.tournament.matches_completed
unfolding forfeit_unrevealed add_costs
matches_completed-forfeit_unrevealed signer player now hashes w w' h = grind arith

pub forfeit_unrevealed-IsUnplayed :
    (signer player : Pubkey) (now : ℤ) (hashes : List ℕ) (w w' : World)
    → IsUnplayed w
    → forfeit_unrevealed signer player now hashes w ≡ ok w'
    → IsUnplayed w'
forfeit_unrevealed-IsUnplayed signer player now hashes w w' v h =
    let (a, s, found, closed, m, ec, ee) = forfeit_unrevealed-ok signer player now hashes w w' h in
    let p = AllPlayable-find 0 player w.entries v.playable found in
    record {
      completed =
          matches_completed-forfeit_unrevealed signer player now hashes w w' h ∙ v.completed;
      scores = rw m.scores v.scores;
      playable = rw ee (
          AllPlayable-write 0 player (record a.entry { strategy = s; revealed = true }) w.entries
            v.playable (record { low = p.low; fits = p.fits }));
    }

pub close_registration-IsUnplayed :
    (signer : Pubkey) (now : ℤ) (w w' : World)
    → IsUnplayed w
    → close_registration signer now w ≡ ok w'
    → IsUnplayed w'
unfolding close_registration add_costs
close_registration-IsUnplayed signer now w w' v h =
    let played : w'.tournament.matches_completed ≡ w.tournament.matches_completed = grind arith in
    let scores : w'.tournament.scores ≡ w.tournament.scores = grind arith in
    let entries : w'.entries ≡ w.entries = grind arith in
    record {
      completed = played ∙ v.completed;
      scores = rw scores v.scores;
      playable = rw entries v.playable;
    }

drop_player-keeps :
    (index : ℕ) (t t' : Tournament)
    → drop_player index t ≡ ok t'
    → (t'.scores ≡ t.scores) × (t'.matches_completed ≡ t.matches_completed)
unfolding drop_player
drop_player-keeps index t t' h = (grind arith, grind arith)

pub claim_refund-IsUnplayed :
    (player : Pubkey) (w w' : World) → IsUnplayed w → claim_refund player w ≡ ok w' → IsUnplayed w'
claim_refund-IsUnplayed player w w' v h =
    let (a, found, now, dropped, ec, ee) = claim_refund-ok player w w' h in
    let (scores, played) = drop_player-keeps a.entry.index w.tournament w'.tournament dropped in
    record {
      completed = played ∙ v.completed;
      scores = rw scores v.scores;
      playable = rw ee (AllPlayable-remove 0 player w.entries v.playable);
    }
