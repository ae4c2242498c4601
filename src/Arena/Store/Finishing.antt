-- ===== src/Arena/Store/Finishing.antt =====
-- Whether `finalize_tournament` of programs/prisoners-arena is accepted on all the accounts.
use prisoners_arena_program.Base.{
  ℕ, ◌+◌, ◌*◌, ◌^◌, ◌≤◌, ◌<◌, ◌≡◌, ◌≢◌, arith, true, some, none, ok, ◌==◌, Bool-cases, Result-cases,
  inl, inr, add_u32, ok-ne-err, ◌∙◌, ap,
}
use prisoners_arena_program.Base.Int.{ℤ}
use prisoners_arena_program.Arena.State.{Pubkey, new_tournament, running, base_space}
use prisoners_arena_program.Arena.Ledger.{Wallets, debit}
use prisoners_arena_program.Arena.World.{Runtime, World, charge, take_from_tournament}
use prisoners_arena_program.Arena.Finalize.{
  NextTournament, collect_fees, reimburse, sweep, award, add_final_costs, finalize_tournament,
}
use prisoners_arena_program.Arena.Finishing.{finalize_tournament-accepted}
use prisoners_arena_program.Arena.Sound.{IsSound}
use prisoners_arena_program.Arena.Store.{
  Stored, Store, finalizes, view, stored, find_tournament, write_tournament, open_next, write_back,
  process,
}
use prisoners_arena_program.Arena.Store.Identity.{id-finalize_tournament}
use prisoners_arena_program.Arena.Store.Slots.{find_tournament-id, find_tournament-write_other}
use prisoners_arena_program.Arena.Store.Sound.{next_tournament}

abbrev current : World → ℕ
current w = w.config.current_tournament_id

current-sweep :
    (rt : Runtime) (operator : Pubkey) (now : ℤ) (w w' : World)
    → sweep rt operator now w ≡ ok w'
    → current w' ≡ current w
unfolding sweep collect_fees reimburse take_from_tournament
current-sweep rt operator now w w' h = grind arith

current-award :
    (rt : Runtime) (operator : Pubkey) (now : ℤ) (w w' : World)
    → award rt operator now w ≡ ok w'
    → current w' ≡ current w
unfolding award collect_fees reimburse take_from_tournament
current-award rt operator now w w' h = grind arith

current-charge :
    (signer : Pubkey) (rent : ℕ) (w w' : World)
    → charge signer rent w ≡ ok w'
    → current w' ≡ current w
unfolding charge
current-charge signer rent w w' h = grind arith

-- The tournament that follows has the next id.
next-id :
    (rt : Runtime) (signer : Pubkey) (now : ℤ) (bump : ℕ) (w w' : World) (n : NextTournament)
    → finalize_tournament rt signer now bump w ≡ ok (w', n)
    → current w' ≡ add_u32 (current w) 1
unfolding finalize_tournament
next-id rt signer now bump w w' n h =
    elim (Result-cases (charge signer (rt.minimum_balance base_space) w)) [
      | inr e ↦ absurd (grind arith)
      | inl (w₀, e₀) ↦ elim (Result-cases (add_final_costs w.config.operator_tx_fee w.tournament)) [
        | inr e ↦ absurd (grind arith)
        | inl (t, e₁) ↦
            (let kept = current-charge signer (rt.minimum_balance base_space) w w₀ e₀ in
              let w₁ = record w₀ { tournament = t } in
              elim (Bool-cases (t.participant_count == 0)) [
                | inl z ↦ elim (Result-cases (sweep rt signer now w₁)) [
                  | inr e ↦ absurd (grind arith)
                  | inl (w₂, e₂) ↦ (let same = current-sweep rt signer now w₁ w₂ e₂ in grind arith)
                ]
                | inr z ↦ elim (Result-cases (award rt signer now w₁)) [
                  | inr e ↦ absurd (grind arith)
                  | inl (w₂, e₂) ↦ (let same = current-award rt signer now w₁ w₂ e₂ in grind arith)
                ]
              ])
      ]
    ]

open_next-free :
    (rt : Runtime) (next : NextTournament) (st : Store)
    → find_tournament next.tournament.id st.tournaments ≡ none
    → (st' : Store) × (open_next rt next st ≡ ok st')
unfolding open_next
open_next-free rt next st free = elim (Result-cases (open_next rt next st)) [
  | inl done ↦ done
  | inr (e, h) ↦ absurd (ok-ne-err (rw (open_next, free) at h))
]

-- Once the matches of a well-formed tournament are complete, the operator's `finalize_tournament` on
-- it is accepted, and the next tournament is opened: where the address of the next id is free, the
-- operator can pay the rent of the account there, the account of this tournament holds the pool, the
-- fee of the house is at most the whole, and the operator's costs, the fee's product and the fees
-- collected stay a u64.
pub process-finalizes-accepted :
    (rt : Runtime) (id : ℕ) (now : ℤ) (bump : ℕ) (st : Store) (s : Stored) (wallets : Wallets)
    → find_tournament id st.tournaments ≡ some s
    → find_tournament (add_u32 st.config.current_tournament_id 1) st.tournaments ≡ none
    → IsSound s.tournament s.entries
    → s.tournament.state ≡ running
    → s.tournament.matches_total ≤ s.tournament.matches_completed
    → debit st.config.operator (rt.minimum_balance base_space) st.wallets ≡ some wallets
    → s.tournament.pool ≤ s.lamports
    → s.tournament.house_fee_bps ≤ 10000
    → s.tournament.operator_costs + (s.tournament.entries_remaining + 2) * st.config.operator_tx_fee
      < 2 ^ 64
    → s.tournament.pool * s.tournament.house_fee_bps < 2 ^ 64
    → st.config.accumulated_fees + s.lamports < 2 ^ 64
    → (st' : Store) × (process rt (finalizes id st.config.operator now bump) st ≡ ok st')
unfolding process new_tournament
process-finalizes-accepted rt id now bump st s wallets f free v going complete rent funded whole
      costs product fits =
    let (w, n, h) =
      finalize_tournament-accepted rt now bump (view st s) wallets v going complete rent funded
        whole costs product fits in
    let signer = st.config.operator in
    let at : w.tournament.id ≡ id =
      id-finalize_tournament rt signer now bump (view st s) w n h
      ∙ find_tournament-id id st.tournaments {s = s} f in
    let after : n.tournament.id ≡ add_u32 st.config.current_tournament_id 1 =
      ap (λ t. t.id) (next_tournament rt signer now bump (view st s) w n h)
      ∙ next-id rt signer now bump (view st s) w n h in
    let free_next : find_tournament n.tournament.id st.tournaments ≡ none = rw after free in
    let ne : id ≢ n.tournament.id = (λ e.
      absurd
        (let found : find_tournament n.tournament.id st.tournaments ≡ some s = rw (← e) f in cc)) in
    let still : find_tournament n.tournament.id (write_tournament id (stored true w) st.tournaments)
        ≡ none =
      find_tournament-write_other id n.tournament.id (stored true w) st.tournaments at ne
      ∙ free_next in
    let (st', opened) = open_next-free rt n (write_back id true w st) still in
    (st', rw (f, h) opened)
