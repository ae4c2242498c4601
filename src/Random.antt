-- ===== src/Random.antt =====
-- crates/match-logic/src/random.rs: `SeededRng`, a xorshift64* generator.
-- A `[u8; 32]` seed is a list of bytes, lowest address first.
use prisoners_arena_program.Base.{
  ℕ, zero, suc, ◌+◌, ◌*◌, ◌/◌, ◌%◌, ◌^◌, ◌<◌, bit_xor, List, [], ◌∷◌, arith, take, drop, ◌==◌,
  if◌then◌else◌, mul_u64, add_u64,
}

pub record SeededRng : Type 0 where
  pub state : ℕ

-- `u64::from_le_bytes`
pub from_le_bytes : List ℕ → ℕ
from_le_bytes [] = 0
from_le_bytes (b ∷ bs) = b + 256 * from_le_bytes bs

-- The loop over `seed.chunks(8).enumerate()`; the first argument counts the chunks left.
pub mix_seed : ℕ → ℕ → ℕ → List ℕ → ℕ
mix_seed zero i state bytes = state
mix_seed (suc n) i state bytes =
    mix_seed n (i + 1) (bit_xor state (add_u64 (from_le_bytes (take 8 bytes)) i)) (drop 8 bytes)

-- The new state of `next_u64`.
unfoldable pub xorshift : ℕ → ℕ
xorshift s =
    let a = bit_xor s (s / 2 ^ 12) in
    let b = bit_xor a (a * 2 ^ 25 % 2 ^ 64) in bit_xor b (b / 2 ^ 27)

unfoldable pub next_u64 : SeededRng → ℕ × SeededRng
unfolding xorshift
next_u64 rng = let s = xorshift rng.state in (mul_u64 s 0x2545f4914f6cdd1d, record { state = s })

-- `for _ in 0..8 { rng.next_u64(); }`
pub warm_up : ℕ → SeededRng → SeededRng
warm_up zero rng = rng
warm_up (suc n) rng = warm_up n (next_u64 rng).1

-- `SeededRng::new(seed, match_index)`
unfoldable pub new_rng : List ℕ → ℕ → SeededRng
unfolding from_le_bytes mix_seed warm_up next_u64
new_rng seed match_index =
    warm_up 8
      (record { state = bit_xor (mix_seed 4 0 0 seed) (mul_u64 match_index 0x517cc1b727220a95) })

-- `SeededRng::for_round(&self, round)`
unfoldable pub for_round : SeededRng → ℕ → SeededRng
unfolding next_u64
for_round rng round =
    (next_u64 (record { state = bit_xor rng.state (mul_u64 round 0x9e3779b97f4a7c15) })).1

unfoldable pub next_u32 : SeededRng → ℕ × SeededRng
unfolding next_u64
next_u32 rng = let (v, rng') = next_u64 rng in (v / 2 ^ 32, rng')

unfoldable pub next_percent : SeededRng → ℕ × SeededRng
unfolding next_u32
next_percent rng = let (v, rng') = next_u32 rng in (v % 100, rng')

unfoldable pub next_range : SeededRng → ℕ → ℕ × SeededRng
unfolding next_u32
next_range rng max = let (v, rng') = next_u32 rng in if max == 0 then (0, rng) else (v % max, rng')

pub next_percent-lt : (rng : SeededRng) → (next_percent rng).0 < 100
unfolding next_percent
next_percent-lt rng = omega arith

pub next_range-lt : (rng : SeededRng) (max : ℕ) → 0 < max → (next_range rng max).0 < max
unfolding next_range
next_range-lt rng max h = ground arith
