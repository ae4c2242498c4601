-- ===== src/Arena/Store/Pooled.antt =====
-- The pools of all the tournaments of programs/prisoners-arena, from the setup on.
use prisoners_arena_program.Base.{
  ℕ, ◌*◌, ◌%◌, ◌^◌, ◌<◌, ◌≡◌, refl, arith, true, not, some, List, [], ◌∷◌, ok, inl, inr, >>=-eq-ok,
  sym,
}
use mathlib.Core.Path.{subst}
use prisoners_arena_program.Base.Int.{ℤ, add_i64}
use prisoners_arena_program.Arena.State.{Pubkey}
use prisoners_arena_program.Arena.Ledger.{Wallets}
use prisoners_arena_program.Arena.World.{Runtime}
use prisoners_arena_program.Arena.Admin.{InitializeConfigParams}
use prisoners_arena_program.Arena.Session.{closes_reveal}
use prisoners_arena_program.Arena.Store.{
  Stored, Store, Transaction, calls, finalizes, refunds_from, view, stored, no_tournament, closes,
  find_tournament, write_tournament, process, process_all, initialize,
}
use prisoners_arena_program.Arena.Store.All.{All, All-find, All-write}
use prisoners_arena_program.Arena.Store.Limits.{limit-execute, limit-finalize_tournament}
use prisoners_arena_program.Arena.Store.Sound.{
  IsTypedTransaction, AllTypedTransactions, next_tournament, initialize-ok, initialize-IsSoundStore,
}
use prisoners_arena_program.Arena.Store.Steps.{
  process-calls, process-finalizes, process-refunds_from,
}
use prisoners_arena_program.Arena.Pool.{IsPooled, SamePool-IsPooled}
use prisoners_arena_program.Arena.Pool.Matches.{finalize_tournament-SamePool}
use prisoners_arena_program.Arena.Pool.Reach.{execute-IsPooled, new_tournament-IsPooled}

-- Every tournament's pool is its stakes, and `max_participants` is a u16.
record IsPooledStore (st : Store) : Type 0 where
  pub typed : st.config.max_participants < 2 ^ 16
  pub pools : All (λ t es. IsPooled t) st.tournaments

process-IsPooledStore :
    (rt : Runtime) (t : Transaction) (st st' : Store)
    → IsTypedTransaction t
    → IsPooledStore st
    → process rt t st ≡ ok st'
    → IsPooledStore st'
process-IsPooledStore rt (calls id i) st st' t v h = elim (process-calls rt id i st st' h) [
  | inl (config, w, p, eq) ↦
      (let typed = limit-execute rt i (view st no_tournament) w t v.typed p in
        subst IsPooledStore (sym eq) (record { typed = typed; pools = v.pools }))
  | inr (s, w, f, p, eq) ↦
      (let before = All-find (λ t es. IsPooled t) id st.tournaments {s = s} v.pools f in
        let typed = limit-execute rt i (view st s) w t v.typed p in
        let after = execute-IsPooled rt i (view st s) w v.typed before p in
        subst IsPooledStore (sym eq) (record {
          typed = typed;
          pools =
              All-write (λ t es. IsPooled t) id (stored (not (closes i)) w) st.tournaments v.pools
                after;
        }))
]
process-IsPooledStore rt (finalizes id signer now bump) st st' t v h =
    let (s, w, next, f, p, free, eq) = process-finalizes rt id signer now bump st st' h in
    let before = All-find (λ t es. IsPooled t) id st.tournaments {s = s} v.pools f in
    let after =
      SamePool-IsPooled s.tournament w.tournament
        (finalize_tournament-SamePool rt signer now bump (view st s) w next p) before in
    let limit = limit-finalize_tournament rt signer now bump (view st s) w next p in
    let typed : w.config.max_participants < 2 ^ 16 = rw limit v.typed in
    let c = w.config in
    let fresh =
      new_tournament-IsPooled next.tournament c.current_tournament_id c.stake c.house_fee_bps
        c.matches_per_player c.registration_duration c.reveal_duration
        (add_i64 now c.registration_duration) bump
        (next_tournament rt signer now bump (view st s) w next p) in
    subst IsPooledStore (sym eq) (record {
      typed = typed;
      pools =
          (fresh, All-write (λ t es. IsPooled t) id (stored true w) st.tournaments v.pools after);
    })
process-IsPooledStore rt (refunds_from id other signer now hashes entry player) st st' t v h =
    let (s, o, w, apart, f, g, p, eq) =
      process-refunds_from rt id other signer now hashes entry player st st' h in
    let i = closes_reveal signer now hashes entry player in
    let w₀ = record (view st s) { entries = o.entries } in
    let mine = All-find (λ t es. IsPooled t) id st.tournaments {s = s} v.pools f in
    let theirs = All-find (λ t es. IsPooled t) other st.tournaments {s = o} v.pools g in
    let typed = limit-execute rt i w₀ w tt v.typed p in
    let after = execute-IsPooled rt i w₀ w v.typed mine p in
    let own = stored true (record w { entries = s.entries }) in
    let first = All-write (λ t es. IsPooled t) id own st.tournaments v.pools after in
    subst IsPooledStore (sym eq) (record {
      typed = typed;
      pools =
          All-write (λ t es. IsPooled t) other (record o { entries = w.entries })
            (write_tournament id own st.tournaments) first theirs;
    })

process_all-IsPooledStore :
    (rt : Runtime) (ts : List Transaction) (st st' : Store)
    → AllTypedTransactions ts
    → IsPooledStore st
    → process_all rt ts st ≡ ok st'
    → IsPooledStore st'
unfolding process_all
process_all-IsPooledStore rt [] st st' t v h = subst IsPooledStore (grind arith) v
process_all-IsPooledStore rt (x ∷ ts) st st' (t, all) v h =
    let (st₁, p, q) = >>=-eq-ok (process rt x st) (process_all rt ts) h in
    process_all-IsPooledStore rt ts st₁ st' all (process-IsPooledStore rt x st st₁ t v p) q

initialize-IsPooledStore :
    (rt : Runtime) (admin : Pubkey) (p : InitializeConfigParams) (now : ℤ) (bump tb : ℕ)
    (wallets : Wallets) (st : Store)
    → p.max_participants < 2 ^ 16
    → initialize rt admin p now bump tb wallets ≡ ok st
    → IsPooledStore st
initialize-IsPooledStore rt admin p now bump tb wallets st small h =
    let opened = initialize-ok rt admin p now bump tb wallets st h in
    record {
      typed = (initialize-IsSoundStore rt admin p now bump tb wallets st small h).typed;
      pools = rw opened (
        new_tournament-IsPooled _ 0 p.stake 0 p.matches_per_player p.registration_duration
            p.reveal_duration (add_i64 now p.registration_duration) tb refl,
        tt,
      );
    }

-- From an accepted `initialize_config` on, through any sequence of accepted transactions on any of
-- the tournaments, finalizations included, also those in which `close_reveal` refunds an entry of
-- another tournament, the pool of a tournament whose stake is a u64 is the stake times the number of its
-- players, modulo 2^64.
pub pool-initialize-process_all :
    (rt : Runtime) (admin : Pubkey) (p : InitializeConfigParams) (now : ℤ) (bump tb : ℕ)
    (wallets : Wallets) (st st' : Store) (ts : List Transaction) (id : ℕ) (s : Stored)
    → p.max_participants < 2 ^ 16
    → initialize rt admin p now bump tb wallets ≡ ok st
    → AllTypedTransactions ts
    → process_all rt ts st ≡ ok st'
    → find_tournament id st'.tournaments ≡ some s
    → s.tournament.stake < 2 ^ 64
    → s.tournament.pool ≡ s.tournament.stake * s.tournament.participant_count % 2 ^ 64
pool-initialize-process_all rt admin p now bump tb wallets st st' ts id s small h typed g f stake =
    let all =
      process_all-IsPooledStore rt ts st st' typed
        (initialize-IsPooledStore rt admin p now bump tb wallets st small h) g in
    (All-find (λ t es. IsPooled t) id st'.tournaments {s = s} all.pools f).pooled stake
