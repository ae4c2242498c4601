-- ===== src/Pairing/Schedule/Canonical.antt =====
-- The canonical indexes of a tournament of crates/match-logic/src/pairing.rs, and their pairs.
use prisoners_arena_program.Base.{
  ℕ, ◌+◌, ◌-◌, ◌*◌, ◌/◌, ◌%◌, ◌≤◌, ◌<◌, ◌≡◌, ◌⊎◌, sym, ◌∙◌, ap, arith, true, false, List, length,
  some, leb, min, mul_u32,
}
use native.Mathlib.Decide.{dec_le}
use native.Mathlib.Nat.{mod-eq_of_lt}
use prisoners_arena_program.Pairing.Roots.Laws.{mul_mono_both}
use prisoners_arena_program.Pairing.Counts.{
  effective_k, div_ceil, available, calculate_match_count_inner,
}
use prisoners_arena_program.Pairing.Offsets.{offset_count, select_offsets}
use prisoners_arena_program.Pairing.Offsets.Laws.{select_offsets_lem}
use prisoners_arena_program.Pairing.Pairs.{
  unrank_pair, canonical_to_pair_round_robin, canonical_to_pair_circular,
}
use prisoners_arena_program.Pairing.Pairs.Unrank.{
  triangle, triangle_mono, triangle_200, pairs-eq-triangle, unrank_pair_lem, unrank_pair_injective,
}
use prisoners_arena_program.Pairing.Pairs.Circular.{IsCircle, circular_lem, circular_injective}
use prisoners_arena_program.Pairing.Feistel.{derive_feistel_keys, feistel_permute}
use prisoners_arena_program.Pairing.Feistel.Permutation.{feistel_permute_total}
use prisoners_arena_program.Pairing.{canonical_to_pair, pairing_at, get_pairing_for_match}

-- The settings under which `close_reveal` schedules: at least 2 players, counted by a u16, and the
-- number of matches per player that `effective_k` gives.
pub record IsTournament (n k : ℕ) : Type 0 where
  pub several : 2 ≤ n
  pub small : n < 65536
  pub adapted : ((n ≤ 200) × (k ≡ n - 1)) ⊎ ((200 < n) × (49 ≤ k) × (k ≤ 99))

pub effective_k-IsTournament : (n c : ℕ) → 2 ≤ n → n < 65536 → IsTournament n (effective_k n c)
unfolding effective_k
effective_k-IsTournament n c h k = record { several = h; small = k; adapted = ground arith }

one_cycle : (m : ℕ) → 1 ≤ m → (m + m - 1) / m ≡ 1
one_cycle m h = grind arith

module _ (n k : ℕ) (t : IsTournament n k) where
  pub small_k : n ≤ 200 → k ≡ n - 1
  small_k h = omega (arith, t.adapted)

  pub large_k : 200 < n → (49 ≤ k) × (k ≤ 99)
  large_k h = omega (arith, t.adapted)

  -- Up to 200 players everybody meets everybody once.
  pub count_round_robin : n ≤ 200 → calculate_match_count_inner n k ≡ triangle n
  unfolding calculate_match_count_inner
  count_round_robin h = ground (
    arith,
    t.several,
    small_k h,
    pairs-eq-triangle n (omega arith),
    one_cycle (n - 1) (omega (arith, t.several)),
  )

  few_offsets : offset_count n k * n < 4194304
  unfolding offset_count
  few_offsets =
      omega
        (arith, mul_mono_both (offset_count n k) n 50 65535 (omega arith) (omega (arith, t.small)))

  pub count_circular : 200 < n → calculate_match_count_inner n k ≡ offset_count n k * n
  unfolding calculate_match_count_inner offset_count
  count_circular h =
      let (lo, hi) = large_k h in
      let all : min (min (div_ceil k 2) (available n)) 50 ≡ min (div_ceil k 2) (available n) =
        omega arith in
      ground (arith, all, few_offsets)

  pub count_small : calculate_match_count_inner n k < 4194304
  count_small = elim (dec_le n 200) [
    | yes le ↦ omega (arith, count_round_robin le, triangle_mono n 200 le, triangle_200)
    | no gt ↦ omega (arith, count_circular (omega arith), few_offsets)
  ]

  -- With up to 5000 players Feistel's domain is at most 250,000.
  pub count_le : n ≤ 5000 → calculate_match_count_inner n k ≤ 250000
  unfolding offset_count
  count_le allowed = elim (dec_le n 200) [
    | yes le ↦ omega (arith, count_round_robin le, triangle_mono n 200 le, triangle_200)
    | no gt ↦ omega (
      arith,
      count_circular (omega arith),
      mul_mono_both (offset_count n k) n 50 5000 (omega arith) allowed,
    )
  ]

  pub circle : (seed : List ℕ) → 200 < n → IsCircle n (select_offsets n k seed) (available n + 1)
  unfolding available
  circle seed h =
      let (a, d, l) = select_offsets_lem n k seed in
      record { size = omega (arith, t.small); half = ground arith; within = a; distinct = d }

  pub as_round_robin :
      (seed : List ℕ) (c : ℕ)
      → n ≤ 200
      → c < triangle n
      → canonical_to_pair n k seed c ≡ unrank_pair c
  unfolding canonical_to_pair canonical_to_pair_round_robin
  as_round_robin seed c h lt =
      let mode : leb n (k + 1) ≡ true = ground (arith, small_k h) in
      let rank : c % (mul_u32 n (n - 1) / 2) ≡ c =
        ap (λ m. c % m) (pairs-eq-triangle n (omega arith)) ∙ mod-eq_of_lt lt in
      rw (mode, canonical_to_pair) (ap unrank_pair rank)

  pub as_circular :
      (seed : List ℕ) (c : ℕ)
      → 200 < n
      → canonical_to_pair n k seed c ≡ canonical_to_pair_circular c n (select_offsets n k seed)
  unfolding canonical_to_pair
  as_circular seed c h =
      let mode : leb n (k + 1) ≡ false = ground (arith, large_k h) in rw (mode, canonical_to_pair)

  in_offsets :
      (seed : List ℕ) (c : ℕ)
      → 200 < n
      → c < calculate_match_count_inner n k
      → c < length (select_offsets n k seed) * n
  in_offsets seed c h lt =
      let (_, _, l) = select_offsets_lem n k seed in rw l (omega (arith, count_circular h))

  -- A canonical index stands for a pair of players a < b < n.
  pub canonical_lem :
      (seed : List ℕ) (c : ℕ)
      → c < calculate_match_count_inner n k
      → let (a, b) = canonical_to_pair n k seed c in (a < b) × (b < n)
  canonical_lem seed c lt = elim (dec_le n 200) [
    | yes le ↦
        (let lt' : c < triangle n = omega (arith, count_round_robin le) in
          let u = unrank_pair_lem n c (omega arith) lt' in
          rw (as_round_robin seed c le lt') (u.0, u.1))
    | no gt ↦ rw (as_circular seed c (omega arith)) (
        circular_lem n (select_offsets n k seed) (available n + 1) (circle seed (omega arith)) c
          (in_offsets seed c (omega arith) lt))
  ]

  pub canonical_injective :
      (seed : List ℕ) (c d : ℕ)
      → c < calculate_match_count_inner n k
      → d < calculate_match_count_inner n k
      → canonical_to_pair n k seed c ≡ canonical_to_pair n k seed d
      → c ≡ d
  canonical_injective seed c d hc hd e = elim (dec_le n 200) [
    | yes le ↦
        (let hc' : c < triangle n = omega (arith, count_round_robin le) in
          let hd' : d < triangle n = omega (arith, count_round_robin le) in
          unrank_pair_injective n c d (omega arith) hc' hd'
            (sym (as_round_robin seed c le hc') ∙ e ∙ as_round_robin seed d le hd'))
    | no gt ↦
        circular_injective n (select_offsets n k seed) (available n + 1) (circle seed (omega arith))
          c d (in_offsets seed c (omega arith) hc) (in_offsets seed d (omega arith) hd)
          (sym (as_circular seed c (omega arith)) ∙ e ∙ as_circular seed d (omega arith))
  ]

  -- The canonical index behind a match index in range, and what the lookup gives.
  pub lookup_lem :
      (seed : List ℕ) (index : ℕ)
      → n ≤ 5000
      → index < calculate_match_count_inner n k
      → (c : ℕ) × (feistel_permute index
            (calculate_match_count_inner n k)
            (derive_feistel_keys seed)
          ≡ some c)
        × (c < calculate_match_count_inner n k)
        × (get_pairing_for_match n k seed index ≡ some (canonical_to_pair n k seed c))
  unfolding get_pairing_for_match pairing_at
  lookup_lem seed index allowed lt =
      let (c, e, hc) =
        feistel_permute_total index (calculate_match_count_inner n k) (derive_feistel_keys seed) lt
          (count_le allowed) in
      let inside : leb (calculate_match_count_inner n k) index ≡ false = ground arith in
      (c, e, hc, rw (inside, get_pairing_for_match) (rw (e, pairing_at)))
