-- ===== src/Arena/Store/Invariant.antt =====
-- An invariant of one tournament of programs/prisoners-arena, carried to all of them, from the setup
-- on.
use prisoners_arena_program.Base.{
  ℕ, ◌^◌, ◌<◌, ◌≡◌, refl, arith, true, not, List, [], ◌∷◌, ok, inl, inr, >>=-eq-ok,
}
use prisoners_arena_program.Base.Int.{ℤ, add_i64}
use prisoners_arena_program.Arena.State.{Pubkey, Tournament, new_tournament}
use prisoners_arena_program.Arena.Ledger.{Wallets}
use prisoners_arena_program.Arena.World.{Runtime, World, EntryAccount}
use prisoners_arena_program.Arena.Admin.{InitializeConfigParams}
use prisoners_arena_program.Arena.Finalize.{NextTournament, finalize_tournament}
use prisoners_arena_program.Arena.Session.{Instruction, execute}
use prisoners_arena_program.Arena.Sound.{IsSound, IsSoundWorld}
use prisoners_arena_program.Arena.Store.{
  Store, Transaction, calls, finalizes, refunds_from, view, stored, closes, process, process_all,
  initialize,
}
use prisoners_arena_program.Arena.Store.All.{All, All-find, All-write}
use prisoners_arena_program.Arena.Store.Steps.{process-calls, process-finalizes}
use prisoners_arena_program.Arena.Store.Sound.{
  IsSoundStore, AllOwnTransactions, IsOwnTransaction, next_tournament, process-IsSoundStore,
  initialize-ok, initialize-IsSoundStore,
}

-- What every instruction keeps on a well-formed tournament, and what a new tournament has.
pub record IsInvariant (rt : Runtime) (P : Tournament → List EntryAccount → Type 0) : Type 0 where
  pub kept :
      (i : Instruction) (w w' : World)
      → IsSoundWorld w
      → P w.tournament w.entries
      → execute rt i w ≡ ok w'
      → P w'.tournament w'.entries
  pub finalized :
      (signer : Pubkey) (now : ℤ) (bump : ℕ) (w w' : World) (n : NextTournament)
      → P w.tournament w.entries
      → finalize_tournament rt signer now bump w ≡ ok (w', n)
      → P w'.tournament w'.entries
  pub fresh :
      (t : Tournament) (id stake fee k : ℕ) (d r ends : ℤ) (bump : ℕ)
      → t ≡ new_tournament id stake fee k d r ends bump
      → P t []

module _ (rt : Runtime) (P : Tournament → List EntryAccount → Type 0) (v : IsInvariant rt P) where
  process-All :
      (t : Transaction) (st st' : Store)
      → IsOwnTransaction t
      → IsSoundStore st
      → All P st.tournaments
      → process rt t st ≡ ok st'
      → All P st'.tournaments
  process-All (calls id i) st st' t s y h = elim (process-calls rt id i st st' h) [
    | inl (config, w, p, eq) ↦ rw eq y
    | inr (x, w, f, p, eq) ↦
        (let sound = All-find IsSound id st.tournaments {s = x} s.sound f in
          let before = All-find P id st.tournaments {s = x} y f in
          let after = v.kept i (view st x) w (record { typed = s.typed; sound = sound }) before p in
          rw eq (All-write P id (stored (not (closes i)) w) st.tournaments y after))
  ]
  process-All (finalizes id signer now bump) st st' t s y h =
      let (x, w, next, f, p, free, eq) = process-finalizes rt id signer now bump st st' h in
      let before = All-find P id st.tournaments {s = x} y f in
      let after = v.finalized signer now bump (view st x) w next before p in
      let c = w.config in
      let first =
        v.fresh next.tournament c.current_tournament_id c.stake c.house_fee_bps c.matches_per_player
          c.registration_duration c.reveal_duration (add_i64 now c.registration_duration) bump
          (next_tournament rt signer now bump (view st x) w next p) in
      rw eq (first, All-write P id (stored true w) st.tournaments y after)
  process-All (refunds_from id other signer now hashes entry player) st st' t s y h = absurd t

  process_all-All :
      (ts : List Transaction) (st st' : Store)
      → AllOwnTransactions ts
      → IsSoundStore st
      → All P st.tournaments
      → process_all rt ts st ≡ ok st'
      → All P st'.tournaments
  unfolding process_all
  process_all-All [] st st' t s y h = let same : st ≡ st' = grind arith in rw (← same) y
  process_all-All (x ∷ ts) st st' (t, all) s y h =
      let (st₁, p, q) = >>=-eq-ok (process rt x st) (process_all rt ts) h in
      process_all-All ts st₁ st' all (process-IsSoundStore rt x st st₁ t s p)
        (process-All x st st₁ t s y p) q

  -- From the setup on an invariant holds of all the tournaments.
  pub initialize-process_all-All :
      (admin : Pubkey) (p : InitializeConfigParams) (now : ℤ) (bump tb : ℕ) (wallets : Wallets)
      (st st' : Store) (ts : List Transaction)
      → p.max_participants < 2 ^ 16
      → initialize rt admin p now bump tb wallets ≡ ok st
      → AllOwnTransactions ts
      → process_all rt ts st ≡ ok st'
      → All P st'.tournaments
  initialize-process_all-All admin p now bump tb wallets st st' ts small h typed g =
      let opened = initialize-ok rt admin p now bump tb wallets st h in
      let first : All P st.tournaments = rw opened (
        v.fresh _ 0 p.stake 0 p.matches_per_player p.registration_duration p.reveal_duration
            (add_i64 now p.registration_duration) tb refl,
        tt,
      ) in
      process_all-All ts st st' typed
        (initialize-IsSoundStore rt admin p now bump tb wallets st small h) first g
