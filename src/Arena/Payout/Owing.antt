-- ===== src/Arena/Payout/Owing.antt =====
-- The instructions after the finalization of programs/prisoners-arena, and the prizes that are owed.
use prisoners_arena_program.Base.{
  ℕ, ◌≡◌, refl, arith, some, List, [], ◌∷◌, ok, length, sym, ◌∙◌, >>=-eq-ok,
}
use prisoners_arena_program.Base.Int.{ℤ}
use prisoners_arena_program.Arena.State.{Pubkey, Tournament, TournamentState, payout}
use prisoners_arena_program.Arena.World.{Runtime, World, EntryAccount}
use prisoners_arena_program.Arena.Closing.{close_tournament}
use prisoners_arena_program.Arena.Session.{
  Instruction, updates, withdraws, enters, reveals, claims_refund, claims_payout,
  closes_registration, closes_reveal, forfeits, runs, closes_entry, closes_tournament, execute,
  execute_all,
}
use prisoners_arena_program.Arena.Refusals.{phase_of, execute-phase}
use prisoners_arena_program.Arena.Sound.{IsSound, IsSoundWorld}
use prisoners_arena_program.Arena.Sound.Reach.{execute-IsSoundWorld}
use prisoners_arena_program.Arena.Opening.Start.{AllTyped, updates-keeps}
use prisoners_arena_program.Arena.Payout.{SamePrizes, IsCovered}
use prisoners_arena_program.Arena.Payout.Counting.{qualified}
use prisoners_arena_program.Arena.Payout.Steps.{
  Pays, Pays-IsCovered, claim_payout-Pays, close_entry-Pays,
}

-- The account still covers the prizes, and they are those of `t`.
pub record Owes (rt : Runtime) (t : Tournament) (w : World) : Type 0 where
  pub covered : IsCovered rt w
  pub prizes : SamePrizes t w.tournament

Owes-kept :
    (rt : Runtime) (t : Tournament) (w w' : World)
    → Owes rt t w
    → w'.tournament ≡ w.tournament
    → w'.tournament_lamports ≡ w.tournament_lamports
    → w'.entries ≡ w.entries
    → Owes rt t w'
Owes-kept rt t w w' o et el ee = record {
  covered = record { now = rw et o.covered.now; covered = rw (et, el, ee) o.covered.covered };
  prizes = rw et o.prizes;
}

Pays-Owes :
    (rt : Runtime) (t : Tournament) (player : Pubkey) (w w' : World)
    → Owes rt t w
    → Pays rt player w w'
    → Owes rt t w'
Pays-Owes rt t player w w' o p = record {
  covered = Pays-IsCovered rt player w w' o.covered p;
  prizes = record {
    pool = p.prizes.pool ∙ o.prizes.pool;
    count = p.prizes.count ∙ o.prizes.count;
    threshold = p.prizes.threshold ∙ o.prizes.threshold;
    started = p.prizes.started ∙ o.prizes.started;
  };
}

-- An instruction of another phase is not accepted.
out_of_phase :
    (rt : Runtime) (t : Tournament) (i : Instruction) (w w' : World) {s : TournamentState}
    → Owes rt t w
    → phase_of i ≡ some s
    → execute rt i w ≡ ok w'
    → payout ≡ s
out_of_phase rt t i w w' o e h = sym o.covered.now ∙ execute-phase rt i w w' e h

no_entries : (threshold : ℕ) (es : List EntryAccount) → length es ≡ 0 → qualified threshold es ≡ 0
no_entries threshold [] h = refl
no_entries threshold (a ∷ as') h = absurd (omega arith)

-- With the tournament's account closed nobody is owed anything.
close_tournament-Owes :
    (rt : Runtime) (t : Tournament) (signer : Pubkey) (now : ℤ) (w w' : World)
    → IsSound w.tournament w.entries
    → Owes rt t w
    → close_tournament signer now w ≡ ok w'
    → Owes rt t w'
unfolding close_tournament
close_tournament-Owes rt t signer now w w' s o h =
    let et : w'.tournament ≡ w.tournament = grind arith in
    let ee : w'.entries ≡ w.entries = grind arith in
    let left : w.tournament.entries_remaining ≡ 0 = grind arith in
    let none_left = no_entries w.tournament.min_winning_score w.entries (sym s.entered ∙ left) in
    record {
      covered = record {
        now = rw et o.covered.now;
        covered = rw (et, ee, none_left) (omega arith);
      };
      prizes = rw et o.prizes;
    }

execute-Owes :
    (rt : Runtime) (t : Tournament) (i : Instruction) (w w' : World)
    → IsSoundWorld w
    → Owes rt t w
    → execute rt i w ≡ ok w'
    → Owes rt t w'
unfolding execute phase_of
execute-Owes rt t (updates signer p) w w' s o h =
    let (et, ee, el) = updates-keeps rt (updates signer p) w w' refl h in
    Owes-kept rt t w w' o et el ee
execute-Owes rt t (withdraws signer) w w' s o h =
    let (et, ee, el) = updates-keeps rt (withdraws signer) w w' refl h in
    Owes-kept rt t w w' o et el ee
execute-Owes rt t (claims_payout player now) w w' s o h =
    Pays-Owes rt t player w w' o (claim_payout-Pays rt player now w w' h)
execute-Owes rt t (closes_entry signer player now) w w' s o h =
    Pays-Owes rt t player w w' o (close_entry-Pays rt signer player now w w' h)
execute-Owes rt t (closes_tournament signer now) w w' s o h =
    close_tournament-Owes rt t signer now w w' s.sound o h
execute-Owes rt t (enters player c now bump) w w' s o h =
    absurd (let e = out_of_phase rt t (enters player c now bump) w w' o refl h in cc)
execute-Owes rt t (reveals player st salt code now) w w' s o h =
    absurd (let e = out_of_phase rt t (reveals player st salt code now) w w' o refl h in cc)
execute-Owes rt t (claims_refund player) w w' s o h =
    absurd (let e = out_of_phase rt t (claims_refund player) w w' o refl h in cc)
execute-Owes rt t (closes_registration signer now) w w' s o h =
    absurd (let e = out_of_phase rt t (closes_registration signer now) w w' o refl h in cc)
execute-Owes rt t (closes_reveal signer now hashes entry player) w w' s o h =
    absurd
      (let e = out_of_phase rt t (closes_reveal signer now hashes entry player) w w' o refl h in cc)
execute-Owes rt t (forfeits signer player now hashes) w w' s o h =
    absurd (let e = out_of_phase rt t (forfeits signer player now hashes) w w' o refl h in cc)
execute-Owes rt t (runs signer passed) w w' s o h =
    absurd (let e = out_of_phase rt t (runs signer passed) w w' o refl h in cc)

pub execute_all-Owes :
    (rt : Runtime) (t : Tournament) (is : List Instruction) (w w' : World)
    → AllTyped is
    → IsSoundWorld w
    → Owes rt t w
    → execute_all rt is w ≡ ok w'
    → IsSoundWorld w' × Owes rt t w'
unfolding execute_all
execute_all-Owes rt t [] w w' ts s o h = let same : w ≡ w' = grind arith in rw (← same) (s, o)
execute_all-Owes rt t (i ∷ is) w w' (ty, ts) s o h =
    let (w₁, p, q) = >>=-eq-ok (execute rt i w) (execute_all rt is) h in
    execute_all-Owes rt t is w₁ w' ts (execute-IsSoundWorld rt i w w₁ ty s p)
      (execute-Owes rt t i w w₁ s o p) q
