-- ===== src/Arena/Ledger.antt =====
-- Lamports: the wallets of the players and of the operator, by key, and moves of lamports.
use prisoners_arena_program.Base.{
  ℕ, ◌+◌, ◌-◌, ◌≡◌, arith, Option, none, some, List, [], ◌∷◌, leb, ◌==◌, if◌then◌else◌,
  Option-cases, inl, inr,
}

abbrev pub Wallets : Type 0
Wallets = List (ℕ × ℕ)

unfoldable pub balance : ℕ → Wallets → ℕ
balance key [] = 0
balance key ((k, lamports) ∷ ws) = if k == key then lamports else balance key ws

-- `**account.try_borrow_mut_lamports()? += amount`
unfoldable pub credit : ℕ → ℕ → Wallets → Wallets
credit key amount [] = (key, amount) ∷ []
credit key amount ((k, lamports) ∷ ws) =
    if k == key then (k, lamports + amount) ∷ ws else (k, lamports) ∷ credit key amount ws

-- A payment out of a wallet, `none` where it holds too little.
unfoldable pub debit : ℕ → ℕ → Wallets → Option Wallets
debit key amount [] = if amount == 0 then some [] else none
debit key amount ((k, lamports) ∷ ws) =
    let rest = debit key amount ws in
    if k == key
    then (if leb amount lamports then some ((k, lamports - amount) ∷ ws) else none)
    else elim rest [ none ↦ none | some ws' ↦ some ((k, lamports) ∷ ws') ]

-- `checked_sub`
unfoldable pub checked_sub : ℕ → ℕ → Option ℕ
checked_sub a b = if leb b a then some (a - b) else none

abbrev pub held : Wallets → ℕ
held [] = 0
held ((_, lamports) ∷ ws) = lamports + held ws

pub held-credit : (key amount : ℕ) (ws : Wallets) → held (credit key amount ws) ≡ held ws + amount
unfolding credit
held-credit key amount [] = omega arith
held-credit key amount ((k, l) ∷ ws) = ground (arith, held-credit key amount ws)

pub held-debit :
    (key amount : ℕ) (ws : Wallets) {ws' : Wallets}
    → debit key amount ws ≡ some ws'
    → held ws' + amount ≡ held ws
unfolding debit
held-debit key amount [] h = ground arith
held-debit key amount ((k, l) ∷ ws) {ws'} h = elim (Option-cases (debit key amount ws)) [
  | inr (rest, e) ↦ ground (arith, held-debit key amount ws e)
  | inl e ↦ ground arith
]
