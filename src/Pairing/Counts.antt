-- ===== src/Pairing/Counts.antt =====
-- crates/match-logic/src/pairing.rs: `effective_k` and the number of matches.
use prisoners_arena_program.Base.{
  ℕ, ◌+◌, ◌-◌, ◌/◌, ◌%◌, ◌^◌, ◌||◌, min, max, ltb, leb, ◌==◌, if◌then◌else◌, mul_u32,
}

unfoldable pub effective_k : ℕ → ℕ → ℕ
effective_k participant_count config_k =
    if ltb participant_count 2
    then 0
    else if leb participant_count 200
    then (participant_count - 1) % 2 ^ 16
    else max 49 (min config_k 99)

-- `a.div_ceil(b)`
abbrev pub div_ceil : ℕ → ℕ → ℕ
div_ceil a b = (a + b - 1) / b

-- The offsets of circular mode: `if n % 2 == 0 { n / 2 - 1 } else { n / 2 }`.
unfoldable pub available : ℕ → ℕ
available n = if n % 2 == 0 then n / 2 - 1 else n / 2

unfoldable pub calculate_match_count_inner : ℕ → ℕ → ℕ
calculate_match_count_inner n k =
    if ltb n 2 || k == 0
    then 0
    else if leb n (k + 1)
    then mul_u32 (mul_u32 n (n - 1) / 2) (div_ceil k (n - 1))
    else mul_u32 (min (div_ceil k 2) (available n)) n
