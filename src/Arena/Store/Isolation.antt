-- ===== src/Arena/Store/Isolation.antt =====
-- The tournaments of programs/prisoners-arena that a transaction is not about.
use prisoners_arena_program.Base.{ℕ, List, [], ◌∷◌, ◌≢◌}
use prisoners_arena_program.Arena.Store.{Store, Transaction, calls, finalizes, refunds_from}

-- A transaction does not name the tournament at an id, neither as its own nor as that of the entry
-- it refunds.
abbrev pub IsNotNamed : ℕ → Transaction → Type 0
IsNotNamed n (calls id i) = id ≢ n
IsNotNamed n (finalizes id signer now bump) = id ≢ n
IsNotNamed n (refunds_from id other signer now hashes entry player) = (id ≢ n) × (other ≢ n)

abbrev pub NoneNames : ℕ → List Transaction → Type 0
NoneNames id [] = Unit
NoneNames id (t ∷ ts) = IsNotNamed id t × NoneNames id ts
