-- ===== src/Arena/Store/Lamports.antt =====
-- The lamports of all the accounts of programs/prisoners-arena.
use prisoners_arena_program.Base.{
  ℕ, ◌≡◌, ◌≢◌, arith, true, some, not, List, [], ◌∷◌, ok, Option-cases, inl, inr, >>=-eq-ok, ◌∙◌,
  ap,
}
use prisoners_arena_program.Base.Int.{ℤ}
use prisoners_arena_program.Arena.State.{Pubkey, config_len, base_space}
use prisoners_arena_program.Arena.Ledger.{Wallets, held, debit, held-debit}
use prisoners_arena_program.Arena.World.{Runtime, World, entry_lamports}
use prisoners_arena_program.Arena.Admin.{InitializeConfigParams, initialize_config, withdraw_fees}
use prisoners_arena_program.Arena.Settlement.{total_lamports-finalize_tournament}
use prisoners_arena_program.Arena.Session.{
  Instruction, updates, withdraws, enters, reveals, claims_refund, claims_payout,
  closes_registration, closes_reveal, forfeits, runs, closes_entry, closes_tournament, execute,
  total_lamports-execute,
}
use prisoners_arena_program.Arena.Store.{
  Store, Transaction, calls, finalizes, refunds_from, view, stored, no_tournament, on_config,
  closes, process, process_all, initialize, find_tournament, write_tournament, stored_lamports,
  store_lamports,
}
use prisoners_arena_program.Arena.Store.Steps.{
  process-calls, process-finalizes, process-refunds_from,
}
use prisoners_arena_program.Arena.Store.Slots.{
  stored_lamports-write, find_tournament-id, find_tournament-write_other,
}
use prisoners_arena_program.Arena.Store.Identity.{id-execute}

config_only :
    (rt : Runtime) (i : Instruction) (w w' : World)
    → on_config i ≡ true
    → execute rt i w ≡ ok w'
    → (w'.tournament_lamports ≡ w.tournament_lamports) × (w'.entries ≡ w.entries)
unfolding execute withdraw_fees
config_only rt (updates signer p) w w' n h = (grind arith, grind arith)
config_only rt (withdraws signer) w w' n h = (grind arith, grind arith)
config_only rt (enters player c now bump) w w' n h = absurd (cc)
config_only rt (reveals player s salt code now) w w' n h = absurd (cc)
config_only rt (claims_refund player) w w' n h = absurd (cc)
config_only rt (claims_payout player now) w w' n h = absurd (cc)
config_only rt (closes_registration signer now) w w' n h = absurd (cc)
config_only rt (closes_reveal signer now hashes entry player) w w' n h = absurd (cc)
config_only rt (forfeits signer player now hashes) w w' n h = absurd (cc)
config_only rt (runs signer passed) w w' n h = absurd (cc)
config_only rt (closes_entry signer player now) w w' n h = absurd (cc)
config_only rt (closes_tournament signer now) w w' n h = absurd (cc)

store_lamports-process :
    (rt : Runtime) (t : Transaction) (st st' : Store)
    → process rt t st ≡ ok st'
    → store_lamports st' ≡ store_lamports st
store_lamports-process rt (calls id i) st st' h = elim (process-calls rt id i st st' h) [
  | inl (config, w, e, eq) ↦
      (let (kept, es) = config_only rt i (view st no_tournament) w config e in
        let total = total_lamports-execute rt i (view st no_tournament) w e in
        omega (arith, total, kept, ap entry_lamports es, ap store_lamports eq))
  | inr (s, w, f, e, eq) ↦
      (let total = total_lamports-execute rt i (view st s) w e in
        let moved = stored_lamports-write id (stored (not (closes i)) w) st.tournaments {s = s} f in
        omega (arith, total, moved, ap store_lamports eq))
]
store_lamports-process rt (finalizes id signer now bump) st st' h =
    let (s, w, next, f, e, free, eq) = process-finalizes rt id signer now bump st st' h in
    let total = total_lamports-finalize_tournament rt signer now bump (view st s) w next e in
    let moved = stored_lamports-write id (stored true w) st.tournaments {s = s} f in
    omega (arith, total, moved, ap store_lamports eq)
store_lamports-process rt (refunds_from id other signer now hashes entry player) st st' h =
    let (s, o, w, apart, f, g, e, eq) =
      process-refunds_from rt id other signer now hashes entry player st st' h in
    let i = closes_reveal signer now hashes entry player in
    let w₀ = record (view st s) { entries = o.entries } in
    let own = stored true (record w { entries = s.entries }) in
    let at : w.tournament.id ≡ id =
      id-execute rt i w₀ w e ∙ find_tournament-id id st.tournaments {s = s} f in
    let ne : id ≢ other = ground arith in
    let still : find_tournament other (write_tournament id own st.tournaments) ≡ some o =
      find_tournament-write_other id other own st.tournaments at ne ∙ g in
    let total = total_lamports-execute rt i w₀ w e in
    let moved = stored_lamports-write id own st.tournaments {s = s} f in
    let taken =
      stored_lamports-write other (record o { entries = w.entries })
        (write_tournament id own st.tournaments) {s = o} still in
    omega (arith, total, moved, taken, ap store_lamports eq)

store_lamports-process_all :
    (rt : Runtime) (ts : List Transaction) (st st' : Store)
    → process_all rt ts st ≡ ok st'
    → store_lamports st' ≡ store_lamports st
unfolding process_all
store_lamports-process_all rt [] st st' h = grind arith
store_lamports-process_all rt (t ∷ ts) st st' h =
    let (st₁, p, q) = >>=-eq-ok (process rt t st) (process_all rt ts) h in
    store_lamports-process_all rt ts st₁ st' q ∙ store_lamports-process rt t st st₁ p

store_lamports-initialize :
    (rt : Runtime) (admin : Pubkey) (p : InitializeConfigParams) (now : ℤ) (bump tb : ℕ)
    (wallets : Wallets) (st : Store)
    → initialize rt admin p now bump tb wallets ≡ ok st
    → store_lamports st ≡ held wallets
unfolding initialize initialize_config
store_lamports-initialize rt admin p now bump tb wallets st h =
    elim (Option-cases (debit admin (rt.minimum_balance config_len) wallets)) [
      | inl e ↦ absurd (grind arith)
      | inr (ws₁, e) ↦ elim (Option-cases (debit admin (rt.minimum_balance base_space) ws₁)) [
        | inl f ↦ absurd (grind arith)
        | inr (ws₂, f) ↦
            (let rent : st.config_lamports ≡ rt.minimum_balance config_len = grind arith in
              let first : stored_lamports st.tournaments ≡ rt.minimum_balance base_space =
                grind arith in
              let left : held st.wallets ≡ held ws₂ = grind arith in
              omega (
                arith,
                rent,
                first,
                left,
                held-debit admin (rt.minimum_balance config_len) wallets e,
                held-debit admin (rt.minimum_balance base_space) ws₁ f,
              ))
      ]
    ]

-- From an accepted `initialize_config` on, through any sequence of accepted transactions on any of
-- the tournaments, finalizations included, also those in which `close_reveal` refunds an entry of
-- another tournament, the lamports of the config, of all the tournaments with
-- their entries and of the wallets are together those that the wallets held before the setup.
pub store_lamports-initialize-process_all :
    (rt : Runtime) (admin : Pubkey) (p : InitializeConfigParams) (now : ℤ) (bump tb : ℕ)
    (wallets : Wallets) (st st' : Store) (ts : List Transaction)
    → initialize rt admin p now bump tb wallets ≡ ok st
    → process_all rt ts st ≡ ok st'
    → store_lamports st' ≡ held wallets
store_lamports-initialize-process_all rt admin p now bump tb wallets st st' ts h g =
    store_lamports-process_all rt ts st st' g
    ∙ store_lamports-initialize rt admin p now bump tb wallets st h
