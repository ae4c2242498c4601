-- ===== src/Pairing/Roots.antt =====
-- crates/match-logic/src/pairing.rs: `isqrt_ceil`, and the Newton iteration that `isqrt_ceil` and
-- `unrank_pair` have in common.
pub mod Laws
use prisoners_arena_program.Base.{
  ℕ, zero, suc, ◌+◌, ◌*◌, ◌/◌, ◌%◌, ◌^◌, leb, ltb, ◌==◌, if◌then◌else◌,
}

-- `while y < x { x = y; y = (x + n / x) / 2; }` at a word size, with `x` at the end. The first
-- argument is fuel: `x` falls in every round, so what `x` is at the start is enough.
unfoldable pub newton : ℕ → ℕ → ℕ → ℕ → ℕ → ℕ
newton zero word n x y = x
newton (suc fuel) word n x y =
    let rest = newton fuel word n y ((y + n / y) % word / 2) in if ltb y x then rest else x

unfoldable pub isqrt_ceil : ℕ → ℕ
isqrt_ceil n =
    let x = newton n (2 ^ 32) n n ((n + 1) % 2 ^ 32 / 2) in
    if leb n 1 then n else if x * x == n then x else x + 1
