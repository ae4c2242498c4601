-- ===== src/Pairing/Feistel/Permutation.antt =====
-- `feistel_permute` of crates/match-logic/src/pairing.rs on the match indexes.
use prisoners_arena_program.Base.{
  ℕ, zero, suc, ◌+◌, ◌-◌, ◌*◌, ◌≤◌, ◌<◌, ◌≡◌, arith, List, some, inl, inr, leb, Bool-cases, leb→le,
  leb_false→lt,
}
use native.Mathlib.Decide.{dec_le}
use prisoners_arena_program.Pairing.Roots.{isqrt_ceil}
use prisoners_arena_program.Pairing.Roots.Laws.{IsCeil, isqrt_ceil-IsCeil}
use prisoners_arena_program.Pairing.Feistel.{feistel_permute, max_passes}
use prisoners_arena_program.Pairing.Feistel.Walk.{walk_injective, walk_total, walk-lt}

square_mono : (a b : ℕ) → a ≤ b → a * a ≤ b * b
square_mono a b h = grind arith

-- The side of the square for a domain of up to 250,000 is at most 500.
side_le : (domain r : ℕ) → domain ≤ 250000 → r * r < domain → r < 500
side_le domain r h lt = elim (dec_le 500 r) [
  | yes le ↦ absurd (omega (arith, square_mono 500 r le))
  | no gt ↦ omega arith
]

suc_sub : (r : ℕ) → suc r - 1 ≡ r
suc_sub r = omega arith

-- So fewer than 1000 values of the square lie out of the domain.
square_lt :
    (domain half : ℕ)
    → 1 < domain
    → domain ≤ 250000
    → IsCeil domain half
    → (0 < half) × (half * half < domain + 1000)
square_lt domain zero p h c = absurd (omega (arith, c.0))
square_lt domain (suc r) p h (above, inl e) = absurd (omega arith)
square_lt domain (suc r) p h (above, inr below) =
    let lt : r * r < domain = rw (suc_sub r) at below in
    (omega arith, omega (arith, side_le domain r h lt))

side_pos : (domain half : ℕ) → 1 < domain → IsCeil domain half → 0 < half
side_pos domain zero p c = absurd (omega (arith, c.0))
side_pos domain (suc r) p c = omega arith

-- For a domain of up to 250,000 indexes every index is permuted, to an index of the domain.
pub feistel_permute_total :
    (idx domain : ℕ) (keys : List ℕ)
    → idx < domain
    → domain ≤ 250000
    → (z : ℕ) × (feistel_permute idx domain keys ≡ some z) × (z < domain)
unfolding feistel_permute
feistel_permute_total idx domain keys hi hd = elim (Bool-cases (leb domain 1)) [
  | inl small ↦ (0, rw small, omega arith)
  | inr big ↦
      (let half = isqrt_ceil domain in
        let lt = leb_false→lt domain 1 big in
        let ceil = isqrt_ceil-IsCeil domain (omega arith) in
        let (pos, room) = square_lt domain half lt hd ceil in
        let (z, e) = walk_total half keys pos max_passes domain idx ceil.0 hi room in
        (z, rw big e, walk-lt half keys pos max_passes domain idx z e))
]

-- For a domain of up to 250,000 indexes no two of them are permuted to one index.
pub feistel_permute_injective :
    (i j domain z : ℕ) (keys : List ℕ)
    → i < domain
    → j < domain
    → domain ≤ 250000
    → feistel_permute i domain keys ≡ some z
    → feistel_permute j domain keys ≡ some z
    → i ≡ j
unfolding feistel_permute
feistel_permute_injective i j domain z keys hi hj hd p q = elim (Bool-cases (leb domain 1)) [
  | inl small ↦ omega (arith, leb→le domain 1 small)
  | inr big ↦
      (let half = isqrt_ceil domain in
        let ceil = isqrt_ceil-IsCeil domain (omega arith) in
        let (pos, room) = square_lt domain half (leb_false→lt domain 1 big) hd ceil in
        walk_injective half keys pos max_passes max_passes domain i j z ceil.0 hi hj (rw big at p)
          (rw big at q))
]

-- Every permuted index is in the domain.
pub feistel_permute-lt :
    (idx domain : ℕ) (keys : List ℕ) {z : ℕ}
    → idx < domain
    → domain < 2147483648
    → feistel_permute idx domain keys ≡ some z
    → z < domain
unfolding feistel_permute
feistel_permute-lt idx domain keys {z} hi hd e = elim (Bool-cases (leb domain 1)) [
  | inl small ↦ (let first : z ≡ 0 = grind arith in omega arith)
  | inr big ↦
      (let half = isqrt_ceil domain in
        let ceil = isqrt_ceil-IsCeil domain hd in
        let lt = leb_false→lt domain 1 big in
        walk-lt half keys (side_pos domain half lt ceil) max_passes domain idx z (rw big at e))
]
