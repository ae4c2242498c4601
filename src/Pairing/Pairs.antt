-- ===== src/Pairing/Pairs.antt =====
-- crates/match-logic/src/pairing.rs: from a canonical index to the two players.
pub mod Unrank
pub mod Circular
use prisoners_arena_program.Base.{
  ℕ, zero, suc, ◌+◌, ◌-◌, ◌*◌, ◌/◌, ◌%◌, ◌^◌, List, ltb, leb, if◌then◌else◌, mul_u32, add_u32,
  get_or,
}
use prisoners_arena_program.Pairing.Roots.{newton}

-- `while b > 0 && b * (b - 1) / 2 > rank { b -= 1; }`
unfoldable pub lower : ℕ → ℕ → ℕ
lower rank zero = zero
lower rank (suc b) =
    let rest = lower rank b in if ltb rank (mul_u32 (suc b) b / 2) then rest else suc b

-- `while (b + 1) * b / 2 <= rank { b += 1; }`, with fuel.
unfoldable pub raise : ℕ → ℕ → ℕ → ℕ
raise zero rank b = b
raise (suc fuel) rank b =
    let rest = raise fuel rank (b + 1) in if leb (mul_u32 (b + 1) b / 2) rank then rest else b

-- The fuel of `raise` is `rank + 2`.
unfoldable pub unrank_pair : ℕ → ℕ × ℕ
unfolding newton lower raise
unrank_pair rank =
    let val = 1 + 8 * rank in
    let s = newton val (2 ^ 64) val val ((val + 1) % 2 ^ 64 / 2) in
    let b = raise (rank + 2) rank (lower rank ((1 + s) / 2 % 2 ^ 32)) in
    (rank - mul_u32 b (b - 1) / 2, b)

unfoldable pub canonical_to_pair_round_robin : ℕ → ℕ → ℕ × ℕ
unfolding unrank_pair
canonical_to_pair_round_robin canonical_idx n =
    unrank_pair (canonical_idx % (mul_u32 n (n - 1) / 2))

-- `offsets[group]` is 0 out of range, where the source panics.
unfoldable pub canonical_to_pair_circular : ℕ → ℕ → List ℕ → ℕ × ℕ
canonical_to_pair_circular canonical_idx n offsets =
    let i = canonical_idx % n in
    let j = add_u32 i (get_or offsets (canonical_idx / n) 0) % n in
    if ltb i j then (i, j) else (j, i)
