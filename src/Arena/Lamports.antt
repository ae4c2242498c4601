-- ===== src/Arena/Lamports.antt =====
-- The lamports of the accounts of programs/prisoners-arena: lemmas on the moves.
use prisoners_arena_program.Base.{
  ℕ, ◌+◌, ◌≡◌, refl, arith, some, List, [], ◌∷◌, ok, Option-cases, inl, inr,
}
use prisoners_arena_program.Arena.State.{Pubkey, Entry}
use prisoners_arena_program.Arena.Ledger.{debit, checked_sub, held-credit, held-debit}
use prisoners_arena_program.Arena.World.{
  World, EntryAccount, find_entry, remove_entry, write_entry, opened, close_to, charge,
  take_from_tournament, pay_wallet, entry_lamports, total_lamports,
}

-- The accounts hold so many lamports.
abbrev pub Totals : ℕ → World → Type 0
Totals n w = total_lamports w ≡ n

pub entry_lamports-remove_entry :
    (player : Pubkey) (as' : List EntryAccount) {a : EntryAccount}
    → find_entry player as' ≡ some a
    → entry_lamports (remove_entry player as') + a.lamports ≡ entry_lamports as'
unfolding find_entry remove_entry
entry_lamports-remove_entry player [] h = grind arith
entry_lamports-remove_entry player (b ∷ bs) h = grind (arith, entry_lamports-remove_entry player bs)

pub entry_lamports-write_entry :
    (player : Pubkey) (e : Entry) (as' : List EntryAccount)
    → entry_lamports (write_entry player e as') ≡ entry_lamports as'
unfolding write_entry
entry_lamports-write_entry player e [] = refl
entry_lamports-write_entry player e (b ∷ bs) =
    ground (arith, entry_lamports-write_entry player e bs)

pub total_lamports-charge :
    (key amount : ℕ) (w w' : World)
    → charge key amount w ≡ ok w'
    → total_lamports w' + amount ≡ total_lamports w
total_lamports-charge key amount w w' h = elim (Option-cases (debit key amount w.wallets)) [
  | inl e ↦ grind arith
  | inr (ws, e) ↦ grind (arith, held-debit key amount w.wallets e)
]

pub total_lamports-take_from_tournament :
    (amount : ℕ) (w w' : World)
    → take_from_tournament amount w ≡ ok w'
    → total_lamports w' + amount ≡ total_lamports w
unfolding take_from_tournament checked_sub
total_lamports-take_from_tournament amount w w' h = ground arith

pub total_lamports-pay_wallet :
    (key amount : ℕ) (w : World)
    → total_lamports (pay_wallet key amount w) ≡ total_lamports w + amount
total_lamports-pay_wallet key amount w = omega (arith, held-credit key amount w.wallets)

pub total_lamports-close_to :
    (player : Pubkey) (w : World) {a : EntryAccount}
    → opened player w ≡ ok a
    → total_lamports (close_to player a.lamports w) ≡ total_lamports w
total_lamports-close_to player w {a} h = elim (Option-cases (find_entry player w.entries)) [
  | inl e ↦ grind arith
  | inr (b, e) ↦ grind (
    arith,
    entry_lamports-remove_entry player w.entries e,
    held-credit player a.lamports w.wallets,
  )
]

pub find_entry-player :
    (player : Pubkey) (as' : List EntryAccount) {a : EntryAccount}
    → find_entry player as' ≡ some a
    → a.entry.player ≡ player
unfolding find_entry
find_entry-player player [] h = grind arith
find_entry-player player (b ∷ bs) h = grind (arith, find_entry-player player bs)
