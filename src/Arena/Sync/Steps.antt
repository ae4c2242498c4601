-- ===== src/Arena/Sync/Steps.antt =====
-- The scores of programs/prisoners-arena through registration, reveal and payout.
use prisoners_arena_program.Base.{ℕ, ◌%◌, ◌^◌, ◌≡◌, arith, Option, List, ok, length, true, sym, ◌∙◌}
use prisoners_arena_program.Base.Int.{ℤ}
use prisoners_arena_program.Arena.State.{Pubkey, Entry, Strategy, reveal}
use prisoners_arena_program.Arena.World.{Runtime, World}
use prisoners_arena_program.Arena.Player.{
  enter_tournament, new_entry, add_player, reveal_strategy, check_commitment, claim_refund,
  claim_payout,
}
use prisoners_arena_program.Arena.Lifecycle.{add_costs, close_registration, forfeit_unrevealed}
use prisoners_arena_program.Arena.Closing.{close_entry, close_tournament}
use prisoners_arena_program.Arena.Sound.{IsSound}
use prisoners_arena_program.Arena.Sound.Seats.{get_elem?-last}
use prisoners_arena_program.Arena.Sound.Entering.{enter_tournament-ok}
use prisoners_arena_program.Arena.Sound.Refunding.{claim_refund-ok, drop_player-ok}
use prisoners_arena_program.Arena.Sound.Closing.{forfeit_unrevealed-ok}
use prisoners_arena_program.Arena.Sound.Paying.{Leaves, claim_payout-Leaves, close_entry-Leaves}
use prisoners_arena_program.Arena.Commitment.{reveal_strategy-result, revealed_world}
use prisoners_arena_program.Arena.Sync.{IsSynced}
use prisoners_arena_program.Arena.Sync.Entries.{
  AllTell-find, AllTell-append, AllTell-remove, AllTell-write,
}

pub enter_tournament-IsSynced :
    (rt : Runtime) (player : Pubkey) (c : List ℕ) (now : ℤ) (bump : ℕ) (w w' : World)
    → IsSound w.tournament w.entries
    → IsSynced w.tournament w.entries
    → enter_tournament rt player c now bump w ≡ ok w'
    → IsSynced w'.tournament w'.entries
unfolding add_player new_entry
enter_tournament-IsSynced rt player c now bump w w' v y h =
    let (_, reg, room, _, et, ee) = enter_tournament-ok rt player c now bump w w' h in
    let n = length w.tournament.scores in
    let at : length w.tournament.players % 2 ^ 32 ≡ n = omega (arith, v.few, v.scores) in
    rw (et, ee)
      (record {
        told = (
          rw at (get_elem?-last w.tournament.scores 0),
          AllTell-append w.tournament.scores 0 w.entries y.told,
        );
        drawn = λ r. absurd (let no = rw r at reg in cc);
      })

pub claim_refund-IsSynced :
    (player : Pubkey) (w w' : World)
    → IsSynced w.tournament w.entries
    → claim_refund player w ≡ ok w'
    → IsSynced w'.tournament w'.entries
claim_refund-IsSynced player w w' y h =
    let (a, found, now, dropped, ec, ee) = claim_refund-ok player w w' h in
    let (v, _) = drop_player-ok w.tournament w'.tournament a.entry.index dropped in
    record {
      told = rw (ee, v.scores) (AllTell-remove w.tournament.scores player w.entries y.told);
      drawn = λ r. absurd (let no = rw (sym v.state ∙ r) at now in cc);
    }

-- The entry that is revealed keeps its index and its score, in either branch.
check_commitment-Tells :
    (rt : Runtime) (s : Strategy) (salt : List ℕ) (code : Option (List ℕ)) (e e' : Entry)
    → check_commitment rt s salt code e ≡ ok e'
    → (e'.index ≡ e.index) × (e'.score ≡ e.score)
unfolding check_commitment
check_commitment-Tells rt s salt code e e' h = grind arith

pub reveal_strategy-IsSynced :
    (rt : Runtime) (player : Pubkey) (s : Strategy) (salt : List ℕ) (code : Option (List ℕ))
    (now : ℤ) (w w' : World)
    → IsSynced w.tournament w.entries
    → reveal_strategy rt player s salt code now w ≡ ok w'
    → IsSynced w'.tournament w'.entries
unfolding revealed_world
reveal_strategy-IsSynced rt player s salt code now w w' y h =
    let (a, e, ss, f, c, d, eu) = reveal_strategy-result rt player s salt code now w w' h in
    let (index, score) = check_commitment-Tells rt s salt code a.entry e c in
    let told = AllTell-find w.tournament.scores player w.entries y.told f in
    rw eu (record {
      told =
          AllTell-write w.tournament.scores player (record e { strategy = s; revealed = true })
            w.entries y.told (rw (index, score) told);
      drawn = y.drawn;
    })

pub forfeit_unrevealed-IsSynced :
    (signer player : Pubkey) (now : ℤ) (hashes : List ℕ) (w w' : World)
    → IsSynced w.tournament w.entries
    → forfeit_unrevealed signer player now hashes w ≡ ok w'
    → IsSynced w'.tournament w'.entries
forfeit_unrevealed-IsSynced signer player now hashes w w' y h =
    let (a, s, found, closed, m, ec, ee) = forfeit_unrevealed-ok signer player now hashes w w' h in
    let told = AllTell-find w.tournament.scores player w.entries y.told found in
    record {
      told =
          rw (ee, m.scores)
            (AllTell-write w.tournament.scores player
              (record a.entry { strategy = s; revealed = true }) w.entries y.told told);
      drawn = λ r. absurd (let no = sym m.after ∙ r in cc);
    }

pub close_registration-IsSynced :
    (signer : Pubkey) (now : ℤ) (w w' : World)
    → IsSynced w.tournament w.entries
    → close_registration signer now w ≡ ok w'
    → IsSynced w'.tournament w'.entries
unfolding close_registration add_costs
close_registration-IsSynced signer now w w' y h =
    let scores : w'.tournament.scores ≡ w.tournament.scores = grind arith in
    let entries : w'.entries ≡ w.entries = grind arith in
    let state : w'.tournament.state ≡ reveal = grind arith in
    record {
      told = rw (scores, entries) y.told;
      drawn = λ r. absurd (let no = sym state ∙ r in cc);
    }

-- One entry less, in the payout phase.
Leaves-IsSynced :
    (player : Pubkey) (w w' : World)
    → IsSynced w.tournament w.entries
    → Leaves player w w'
    → IsSynced w'.tournament w'.entries
Leaves-IsSynced player w w' y l = record {
  told = rw (l.scores, l.entries) (AllTell-remove w.tournament.scores player w.entries y.told);
  drawn = λ r. absurd (let no = sym l.after ∙ r in cc);
}

pub claim_payout-IsSynced :
    (player : Pubkey) (now : ℤ) (w w' : World)
    → IsSynced w.tournament w.entries
    → claim_payout player now w ≡ ok w'
    → IsSynced w'.tournament w'.entries
claim_payout-IsSynced player now w w' y h =
    Leaves-IsSynced player w w' y (claim_payout-Leaves player now w w' h)

pub close_entry-IsSynced :
    (rt : Runtime) (signer player : Pubkey) (now : ℤ) (w w' : World)
    → IsSynced w.tournament w.entries
    → close_entry rt signer player now w ≡ ok w'
    → IsSynced w'.tournament w'.entries
close_entry-IsSynced rt signer player now w w' y h =
    Leaves-IsSynced player w w' y (close_entry-Leaves rt signer player now w w' h)

pub close_tournament-IsSynced :
    (signer : Pubkey) (now : ℤ) (w w' : World)
    → IsSynced w.tournament w.entries
    → close_tournament signer now w ≡ ok w'
    → IsSynced w'.tournament w'.entries
unfolding close_tournament
close_tournament-IsSynced signer now w w' y h =
    let same : w'.tournament ≡ w.tournament = grind arith in
    let entries : w'.entries ≡ w.entries = grind arith in rw (same, entries) y
