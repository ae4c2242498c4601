-- ===== src/Arena/Sound/Reach.antt =====
-- The worlds that the instructions of programs/prisoners-arena lead to.
use prisoners_arena_program.Base.{ℕ, ◌<◌, ◌^◌, ◌≡◌, refl, arith, [], ok, Result-cases, inl, inr}
use prisoners_arena_program.Base.Int.{ℤ}
use prisoners_arena_program.Arena.State.{Pubkey, new_tournament, running}
use prisoners_arena_program.Arena.World.{Runtime, World}
use prisoners_arena_program.Arena.Admin.{update_config}
use prisoners_arena_program.Arena.Finalize.{finalize_tournament, NextTournament}
use prisoners_arena_program.Arena.Running.{all_revealed}
use prisoners_arena_program.Arena.Session.{
  Instruction, updates, withdraws, enters, reveals, claims_refund, claims_payout,
  closes_registration, closes_reveal, forfeits, runs, closes_entry, closes_tournament, execute,
}
use prisoners_arena_program.Arena.Sound.{IsSoundWorld}
use prisoners_arena_program.Arena.Sound.Slots.{all_revealed-ok}
use prisoners_arena_program.Arena.Sound.Entering.{enter_tournament-IsSoundWorld}
use prisoners_arena_program.Arena.Sound.Refunding.{claim_refund-IsSoundWorld}
use prisoners_arena_program.Arena.Sound.Revealing.{reveal_strategy-IsSoundWorld}
use prisoners_arena_program.Arena.Sound.Closing.{
  close_registration-IsSoundWorld, forfeit_unrevealed-IsSoundWorld,
}
use prisoners_arena_program.Arena.Sound.Evening.{close_reveal-IsSoundWorld}
use prisoners_arena_program.Arena.Sound.Playing.{run_matches-IsSoundWorld}
use prisoners_arena_program.Arena.Sound.Paying.{
  claim_payout-IsSoundWorld, close_entry-IsSoundWorld, close_tournament-IsSoundWorld,
}
use prisoners_arena_program.Arena.Sound.Administering.{
  FitsU16, withdraw_fees-IsSoundWorld, update_config-typed,
}
use prisoners_arena_program.Arena.Sound.Finalizing.{finalize_tournament-IsSoundWorld}

-- The arguments are of their types: a u16 fits its width, and the default key signs nothing.
abbrev pub IsTyped : Instruction → Type 0
IsTyped (updates signer p) = FitsU16 p.max_participants
IsTyped (enters player c now bump) = 0 < player
IsTyped _ = Unit

-- One accepted instruction.
pub data Step (rt : Runtime) : World → World → Type 0 where
  runs_one : {w w' : World} (i : Instruction) → IsTyped i → execute rt i w ≡ ok w' → Step rt w w'
  finalizes :
      {w w' : World} (signer : Pubkey) (now : ℤ) (bump : ℕ) (n : NextTournament)
      → finalize_tournament rt signer now bump w ≡ ok (w', n)
      → Step rt w w'

-- Any number of accepted instructions.
pub data Reach (rt : Runtime) (w : World) : World → Type 0 where
  here : Reach rt w w
  next : {u v : World} → Reach rt w u → Step rt u v → Reach rt w v

pub execute-IsSoundWorld :
    (rt : Runtime) (i : Instruction) (w w' : World)
    → IsTyped i
    → IsSoundWorld w
    → execute rt i w ≡ ok w'
    → IsSoundWorld w'
unfolding execute
execute-IsSoundWorld rt (updates signer p) w w' t v h =
    elim (Result-cases (update_config signer p w.config)) [
      | inr e ↦ absurd (grind arith)
      | inl (c, e) ↦
          (let typed = update_config-typed signer p w.config c t v.typed e in
            let same : w' ≡ record w { config = c } = grind arith in
            rw same (record { typed = typed; sound = v.sound }))
    ]
execute-IsSoundWorld rt (withdraws signer) w w' t v h =
    withdraw_fees-IsSoundWorld rt signer w w' v h
execute-IsSoundWorld rt (enters player c now bump) w w' t v h =
    enter_tournament-IsSoundWorld rt player c now bump w w' t v h
execute-IsSoundWorld rt (reveals player s salt code now) w w' t v h =
    reveal_strategy-IsSoundWorld rt player s salt code now w w' v h
execute-IsSoundWorld rt (claims_refund player) w w' t v h =
    claim_refund-IsSoundWorld player w w' v h
execute-IsSoundWorld rt (claims_payout player now) w w' t v h =
    claim_payout-IsSoundWorld player now w w' v h
execute-IsSoundWorld rt (closes_registration signer now) w w' t v h =
    close_registration-IsSoundWorld signer now w w' v h
execute-IsSoundWorld rt (closes_reveal signer now hashes entry player) w w' t v h =
    close_reveal-IsSoundWorld signer now hashes entry player w w' v h
execute-IsSoundWorld rt (forfeits signer player now hashes) w w' t v h =
    forfeit_unrevealed-IsSoundWorld signer player now hashes w w' v h
execute-IsSoundWorld rt (runs signer passed) w w' t v h =
    run_matches-IsSoundWorld signer passed w w' v h
execute-IsSoundWorld rt (closes_entry signer player now) w w' t v h =
    close_entry-IsSoundWorld rt signer player now w w' v h
execute-IsSoundWorld rt (closes_tournament signer now) w w' t v h =
    close_tournament-IsSoundWorld signer now w w' v h

Step-IsSoundWorld : (rt : Runtime) {w w' : World} → IsSoundWorld w → Step rt w w' → IsSoundWorld w'
Step-IsSoundWorld rt v (runs_one i t h) = execute-IsSoundWorld rt i _ _ t v h
Step-IsSoundWorld rt v (finalizes signer now bump n h) =
    finalize_tournament-IsSoundWorld rt signer now bump _ _ n v h

-- The accounts stay well-formed through every sequence of accepted instructions, the finalization
-- included.
pub Reach-IsSoundWorld :
    (rt : Runtime) (w w' : World) → IsSoundWorld w → Reach rt w w' → IsSoundWorld w'
Reach-IsSoundWorld rt w _ v here = v
Reach-IsSoundWorld rt w w' v (next r s) = Step-IsSoundWorld rt (Reach-IsSoundWorld rt w _ v r) s

-- A new tournament without entries is well-formed, where the config's limit is a u16.
pub new_tournament-IsSoundWorld :
    (w : World) (id stake fee k : ℕ) (d r ends : ℤ) (bump : ℕ)
    → w.config.max_participants < 2 ^ 16
    → w.tournament ≡ new_tournament id stake fee k d r ends bump
    → w.entries ≡ []
    → IsSoundWorld w
unfolding new_tournament
new_tournament-IsSoundWorld w id stake fee k d r ends bump room et ee = record {
  typed = room;
  sound =
      rw (et, ee)
        (record {
          scores = refl;
          strategies = refl;
          few = omega arith;
          counted = refl;
          entered = refl;
          seated = tt;
          opened = λ _. refl;
          hidden = λ _. refl;
          tallied = refl;
          complete = λ c. absurd (cc);
        });
}

-- In every world that is reached while the matches run, starting from a well-formed one, the check
-- of `run_matches` that the active players are revealed passes.
pub all_revealed-Reach :
    (rt : Runtime) (w w' : World)
    → IsSoundWorld w
    → Reach rt w w'
    → w'.tournament.state ≡ running
    → all_revealed w'.tournament.players w'.tournament.strategies ≡ ok tt
all_revealed-Reach rt w w' v r now =
    let s = (Reach-IsSoundWorld rt w w' v r).sound in
    all_revealed-ok w'.tournament.players w'.tournament.strategies s.strategies
      (omega (arith, s.tallied, s.counted, s.complete (rw now refl)))
