-- ===== src/Moves.antt =====
-- crates/match-logic: `enum Move` (src/strategy.rs) and the payoff matrix (src/lib.rs).
use prisoners_arena_program.Base.{
  ℕ, ◌+◌, ◌≡◌, ◌≤◌, refl, arith, Bool, true, false, Option, none, some, List,
}

pub data Move : Type 0 where
  cooperate defect : Move

abbrev pub History : Type 0
History = List Move

-- `m == Move::Defect`
abbrev pub is_defect : Move → Bool
is_defect cooperate = false
is_defect defect = true

-- `unwrap_or(Move::Cooperate)`
abbrev pub or_cooperate : Option Move → Move
or_cooperate none = cooperate
or_cooperate (some m) = m

-- `payoff(a, b)`: the scores of the first and of the second player.
unfoldable pub payoff : Move → Move → ℕ × ℕ
payoff cooperate cooperate = (3, 3)
payoff cooperate defect = (0, 5)
payoff defect cooperate = (5, 0)
payoff defect defect = (1, 1)

-- Swapping the players swaps the scores.
pub payoff_swap : (a b : Move) → payoff b a ≡ ((payoff a b).1, (payoff a b).0)
unfolding payoff
payoff_swap cooperate cooperate = refl
payoff_swap cooperate defect = refl
payoff_swap defect cooperate = refl
payoff_swap defect defect = refl

pub payoff_bounds : (a b : Move) → ((payoff a b).0 ≤ 5) × ((payoff a b).1 ≤ 5)
unfolding payoff
payoff_bounds a b = ground arith

pub payoff_sum_le : (a b : Move) → (payoff a b).0 + (payoff a b).1 ≤ 6
unfolding payoff
payoff_sum_le a b = ground arith
