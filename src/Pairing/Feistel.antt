-- ===== src/Pairing/Feistel.antt =====
-- crates/match-logic/src/pairing.rs: the Feistel permutation of the match indexes.
pub mod Network
pub mod Walk
pub mod Permutation
use prisoners_arena_program.Base.{
  ℕ, zero, suc, ◌+◌, ◌-◌, ◌*◌, ◌/◌, ◌%◌, ◌^◌, Option, none, some, List, [], ◌∷◌, ltb, leb, ◌==◌,
  if◌then◌else◌, add_u64, mul_u64,
}
use Prim.Native.Nat.{bit_or}
use prisoners_arena_program.Random.{SeededRng, new_rng, next_u64}
use prisoners_arena_program.Pairing.Roots.{isqrt_ceil}

-- `(..) as u32 % modulus`
unfoldable pub feistel_round_fn : ℕ → ℕ → ℕ → ℕ
feistel_round_fn input key modulus =
    add_u64 (mul_u64 input (bit_or key 1)) (key / 2 ^ 32) / 2 ^ 16 % 2 ^ 32 % modulus

-- `for k in &mut keys { *k = rng.next_u64(); }`
draw_keys : ℕ → SeededRng → List ℕ
draw_keys zero rng = []
draw_keys (suc n) rng = let (key, rng') = next_u64 rng in key ∷ draw_keys n rng'

unfoldable pub derive_feistel_keys : List ℕ → List ℕ
unfolding draw_keys
derive_feistel_keys seed = draw_keys 6 (new_rng seed (2 ^ 32 - 1))

-- The body of the loop over `round_keys.iter().enumerate()`, on `(left, right)`.
unfoldable pub mix : ℕ → ℕ → ℕ → ℕ × ℕ → ℕ × ℕ
mix half i key (left, right) =
    if i % 2 == 0
    then (left, (right + feistel_round_fn left key half) % half)
    else ((left + feistel_round_fn right key half) % half, right)

unfoldable pub feistel_rounds : ℕ → ℕ → List ℕ → ℕ × ℕ → ℕ × ℕ
feistel_rounds half i [] lr = lr
feistel_rounds half i (key ∷ keys) lr = feistel_rounds half (i + 1) keys (mix half i key lr)

-- One pass of the outer loop: split, mix, join.
unfoldable pub feistel_pass : ℕ → List ℕ → ℕ → ℕ
feistel_pass half keys val =
    let (left, right) = feistel_rounds half 0 keys (val / half, val % half) in left * half + right

-- `for _ in 0..1000`: passes until the value is in the domain. The first argument is the number of
-- passes left.
unfoldable pub walk : ℕ → ℕ → List ℕ → ℕ → ℕ → Option ℕ
walk zero half keys domain val = none
walk (suc left) half keys domain val =
    let val' = feistel_pass half keys val in
    let rest = walk left half keys domain val' in if ltb val' domain then some val' else rest

abbrev pub max_passes : ℕ
max_passes = 1000

unfoldable pub feistel_permute : ℕ → ℕ → List ℕ → Option ℕ
feistel_permute idx domain_size round_keys =
    if leb domain_size 1
    then some 0
    else walk max_passes (isqrt_ceil domain_size) round_keys domain_size idx
