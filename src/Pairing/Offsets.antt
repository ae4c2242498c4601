-- ===== src/Pairing/Offsets.antt =====
-- crates/match-logic/src/pairing.rs: `select_offsets`, Floyd's sampling. The array with its count is
-- the list of its first `count` entries.
pub mod Laws
use prisoners_arena_program.Base.{
  ℕ, zero, suc, ◌+◌, ◌-◌, Bool, true, false, ◌||◌, min, List, [], ◌∷◌, ◌++◌, leb, ◌==◌,
  if◌then◌else◌,
}
use prisoners_arena_program.Random.{SeededRng, new_rng, next_range}
use prisoners_arena_program.Pairing.Counts.{div_ceil, available}

unfoldable pub contains : ℕ → List ℕ → Bool
contains t [] = false
contains t (x ∷ xs) = x == t || contains t xs

-- The loop `for j in (big_n - m + 1)..=big_n`; the first argument is the number of rounds left.
unfoldable pub sample : ℕ → ℕ → SeededRng → List ℕ → List ℕ
sample zero j rng result = result
sample (suc left) j rng result =
    let (r, rng') = next_range rng j in
    let t = r + 1 in sample left (j + 1) rng' (result ++ (if contains t result then j else t) ∷ [])

-- `sort_unstable` of the standard library, on numbers.
unfoldable pub insert : ℕ → List ℕ → List ℕ
insert a [] = a ∷ []
insert a (x ∷ xs) = if leb a x then a ∷ x ∷ xs else x ∷ insert a xs

unfoldable pub sort : List ℕ → List ℕ
unfolding insert
sort [] = []
sort (x ∷ xs) = insert x (sort xs)

-- `offsets_to_use`, capped by the array's size.
unfoldable pub offset_count : ℕ → ℕ → ℕ
offset_count n k = min (min (div_ceil k 2) (available n)) 50

unfoldable pub select_offsets : ℕ → ℕ → List ℕ → List ℕ
select_offsets n k seed =
    let m = offset_count n k in sort (sample m (available n - m + 1) (new_rng seed 0) [])
