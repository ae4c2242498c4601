-- ===== src/Arena/Settlement.antt =====
-- The lamports of the accounts of programs/prisoners-arena through the instructions that make several
-- payments.
use prisoners_arena_program.Base.{
  ℕ, ◌+◌, ◌≡◌, refl, arith, Option, none, some, List, ok, err, Option-cases, inl, inr,
}
use prisoners_arena_program.Base.Int.{ℤ}
use prisoners_arena_program.Arena.Error.{Outcome}
use prisoners_arena_program.Arena.State.{Pubkey}
use prisoners_arena_program.Arena.Ledger.{
  Wallets, debit, checked_sub, held, held-credit, held-debit,
}
use prisoners_arena_program.Arena.World.{
  Runtime, World, EntryAccount, take_from_tournament, total_lamports,
}
use prisoners_arena_program.Arena.Lamports.{entry_lamports-remove_entry}
use prisoners_arena_program.Arena.Player.{enter_tournament, open_entry}
use prisoners_arena_program.Arena.Finalize.{
  collect_fees, reimburse, sweep, award, finalize_tournament, NextTournament,
}
use prisoners_arena_program.Arena.Closing.{settle, close_entry}
use prisoners_arena_program.Arena.Conservation.{total_lamports-settle}

-- The lamports after a step, or `n` if it fails.
abbrev left_in : ℕ → Outcome World → ℕ
left_in n (ok w) = total_lamports w
left_in n (err e) = n

left_in-collect_fees :
    (amount : ℕ) (w : World) → left_in (total_lamports w) (collect_fees amount w) ≡ total_lamports w
unfolding collect_fees take_from_tournament checked_sub
left_in-collect_fees amount w = ground arith

left_in-reimburse :
    (rt : Runtime) (operator : Pubkey) (costs : ℕ) (w : World)
    → left_in (total_lamports w) (reimburse rt operator costs w) ≡ total_lamports w
unfolding reimburse take_from_tournament checked_sub
left_in-reimburse rt operator costs w = grind (arith, held-credit)

total_lamports-sweep :
    (rt : Runtime) (operator : Pubkey) (now : ℤ) (w w' : World)
    → sweep rt operator now w ≡ ok w'
    → total_lamports w' ≡ total_lamports w
unfolding sweep
total_lamports-sweep rt operator now w w' h = grind (arith, left_in-reimburse, left_in-collect_fees)

total_lamports-award :
    (rt : Runtime) (operator : Pubkey) (now : ℤ) (w w' : World)
    → award rt operator now w ≡ ok w'
    → total_lamports w' ≡ total_lamports w
unfolding award
total_lamports-award rt operator now w w' h = grind (arith, left_in-reimburse, left_in-collect_fees)

left_in-ok :
    (m : Outcome World) (n : ℕ)
    → ((w' : World) → m ≡ ok w' → total_lamports w' ≡ n)
    → left_in n m ≡ n
left_in-ok (ok w) n h = h w refl
left_in-ok (err e) n h = refl

left_in-settle :
    (rt : Runtime) (player : Pubkey) (now : ℤ) (w : World)
    → left_in (total_lamports w) (settle rt player now w) ≡ total_lamports w
left_in-settle rt player now w = left_in-ok _ _ (total_lamports-settle rt player now w)

left_in-sweep :
    (rt : Runtime) (operator : Pubkey) (now : ℤ) (w : World)
    → left_in (total_lamports w) (sweep rt operator now w) ≡ total_lamports w
left_in-sweep rt operator now w = left_in-ok _ _ (total_lamports-sweep rt operator now w)

left_in-award :
    (rt : Runtime) (operator : Pubkey) (now : ℤ) (w : World)
    → left_in (total_lamports w) (award rt operator now w) ≡ total_lamports w
left_in-award rt operator now w = left_in-ok _ _ (total_lamports-award rt operator now w)

-- The entries after a step, or those given if it fails.
abbrev entries_in : List EntryAccount → Outcome World → List EntryAccount
entries_in as' (ok w) = w.entries
entries_in as' (err e) = as'

entries_in-settle :
    (rt : Runtime) (player : Pubkey) (now : ℤ) (w : World)
    → entries_in w.entries (settle rt player now w) ≡ w.entries
unfolding settle collect_fees take_from_tournament
entries_in-settle rt player now w = grind arith

-- What wallets held before a payment that they could make.
abbrev held_before : ℕ → ℕ → Option Wallets → ℕ
held_before n amount (some ws) = held ws + amount
held_before n amount none = n

held_before-debit :
    (key amount : ℕ) (ws : Wallets) → held_before (held ws) amount (debit key amount ws) ≡ held ws
held_before-debit key amount ws = elim (Option-cases (debit key amount ws)) [
  | inl e ↦ rw e
  | inr (ws', e) ↦ rw e (held-debit key amount ws e)
]

pub total_lamports-close_entry :
    (rt : Runtime) (signer player : Pubkey) (now : ℤ) (w w' : World)
    → close_entry rt signer player now w ≡ ok w'
    → total_lamports w' ≡ total_lamports w
unfolding close_entry
total_lamports-close_entry rt signer player now w w' h =
    grind (arith, left_in-settle, entries_in-settle, entry_lamports-remove_entry, held-credit)

pub total_lamports-enter_tournament :
    (rt : Runtime) (player : Pubkey) (commitment : List ℕ) (now : ℤ) (bump : ℕ) (w w' : World)
    → enter_tournament rt player commitment now bump w ≡ ok w'
    → total_lamports w' ≡ total_lamports w
unfolding enter_tournament open_entry
total_lamports-enter_tournament rt player commitment now bump w w' h =
    grind (arith, held_before-debit)

-- Finalizing a tournament makes no lamports: those of the next tournament's account and those of the
-- other accounts are together the lamports from before.
pub total_lamports-finalize_tournament :
    (rt : Runtime) (signer : Pubkey) (now : ℤ) (bump : ℕ) (w w' : World) (n : NextTournament)
    → finalize_tournament rt signer now bump w ≡ ok (w', n)
    → total_lamports w' + n.lamports ≡ total_lamports w
unfolding finalize_tournament
total_lamports-finalize_tournament rt signer now bump w w' n h =
    grind (arith, held-debit, left_in-sweep, left_in-award)
