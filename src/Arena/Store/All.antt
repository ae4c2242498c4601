-- ===== src/Arena/Store/All.antt =====
-- What holds of every tournament of programs/prisoners-arena, with its entries.
use prisoners_arena_program.Base.{ℕ, ◌≡◌, arith, some, List, [], ◌∷◌, Bool-cases, inl, inr}
use mathlib.Core.Path.{subst}
use prisoners_arena_program.Arena.State.{Tournament}
use prisoners_arena_program.Arena.World.{EntryAccount}
use prisoners_arena_program.Arena.Store.{Stored, is_at, find_tournament, write_tournament}

module _ (P : Tournament → List EntryAccount → Type 0) where
  abbrev pub All : List Stored → Type 0
  All [] = Unit
  All (s ∷ ss) = P s.tournament s.entries × All ss

  pub All-find :
      (id : ℕ) (ss : List Stored) {s : Stored}
      → All ss
      → find_tournament id ss ≡ some s
      → P s.tournament s.entries
  unfolding find_tournament
  All-find id [] v e = cc
  All-find id (x ∷ ss) {s} (v, vs) e = elim (Bool-cases (is_at id x)) [
    | inl here ↦ (let same : x ≡ s = grind arith in subst (λ y. P y.tournament y.entries) same v)
    | inr there ↦ All-find id ss {s = s} vs (rw there at e)
  ]

  pub All-write :
      (id : ℕ) (s : Stored) (ss : List Stored)
      → All ss
      → P s.tournament s.entries
      → All (write_tournament id s ss)
  unfolding write_tournament
  All-write id s [] v h = tt
  All-write id s (x ∷ ss) (v, vs) h = elim (Bool-cases (is_at id x)) [
    | inl here ↦ rw here (h, vs)
    | inr there ↦ rw there (v, All-write id s ss vs h)
  ]
