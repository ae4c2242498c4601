-- ===== src/Pairing/Schedule.antt =====
-- The schedule of a tournament of crates/match-logic/src/pairing.rs: match indexes and pairs.
mod Canonical
pub use Canonical.{
  IsTournament, effective_k-IsTournament, small_k, large_k, count_round_robin, count_circular,
  count_small, count_le, circle, as_round_robin, as_circular, canonical_lem, canonical_injective,
  lookup_lem,
}
use prisoners_arena_program.Base.{
  ℕ, ◌+◌, ◌-◌, ◌*◌, ◌/◌, ◌%◌, ◌≤◌, ◌<◌, ◌≡◌, ◌⊎◌, sym, ◌∙◌, ap, arith, true, false, List, length,
  some, inl, inr, leb, min, mul_u32, Bool-cases, Option-cases, leb_false→lt,
}
use native.Mathlib.Decide.{dec_le}
use native.Mathlib.Nat.{mod-eq_of_lt}
use mathlib.Core.Option.{some-injective}
use prisoners_arena_program.Pairing.Roots.Laws.{mul_mono_both}
use prisoners_arena_program.Pairing.Counts.{
  effective_k, div_ceil, available, calculate_match_count_inner,
}
use prisoners_arena_program.Pairing.Offsets.{offset_count, select_offsets}
use prisoners_arena_program.Pairing.Offsets.Laws.{select_offsets_lem}
use prisoners_arena_program.Pairing.Pairs.{
  unrank_pair, canonical_to_pair_round_robin, canonical_to_pair_circular,
}
use prisoners_arena_program.Pairing.Pairs.Unrank.{
  triangle, triangle_mono, triangle_200, pairs-eq-triangle, unrank_pair_lem, unrank_pair_injective,
}
use prisoners_arena_program.Pairing.Pairs.Circular.{IsCircle, circular_lem, circular_injective}
use prisoners_arena_program.Pairing.Feistel.{derive_feistel_keys, feistel_permute}
use prisoners_arena_program.Pairing.Feistel.Permutation.{
  feistel_permute_total, feistel_permute_injective, feistel_permute-lt,
}
use prisoners_arena_program.Pairing.{
  canonical_to_pair, pairing_at, get_pairing_for_match, calculate_match_count,
}

-- The steps behind a pair that the lookup gives.
found_lem :
    (n k : ℕ) (seed : List ℕ) (index : ℕ) {pair : ℕ × ℕ}
    → get_pairing_for_match n k seed index ≡ some pair
    → (c : ℕ) × (index < calculate_match_count_inner n k)
      × (feistel_permute index (calculate_match_count_inner n k) (derive_feistel_keys seed)
          ≡ some c)
      × (canonical_to_pair n k seed c ≡ pair)
unfolding get_pairing_for_match pairing_at
found_lem n k seed index e = elim (Bool-cases (leb (calculate_match_count_inner n k) index)) [
  | inl outside ↦ grind arith
  | inr inside ↦
      (let f = feistel_permute index (calculate_match_count_inner n k) (derive_feistel_keys seed) in
        elim (Option-cases f) [
          | inl p ↦ (let no = rw (inside, pairing_at, p) at e in cc)
          | inr (c, p) ↦
              (c, leb_false→lt _ _ inside, p, some-injective _ _ (rw (inside, pairing_at, p) at e))
        ])
]

no_match : (n k : ℕ) → n < 2 → calculate_match_count_inner n k ≡ 0
unfolding calculate_match_count_inner
no_match n k h = ground arith

-- Fewer than 2 players have no pair.
pub get_pairing_for_match-few :
    (n k : ℕ) (seed : List ℕ) (index : ℕ) {pair : ℕ × ℕ}
    → n < 2
    → get_pairing_for_match n k seed index ≡ some pair
    → ⊥
get_pairing_for_match-few n k seed index few e =
    let (_, inside, _, _) = found_lem n k seed index e in omega (arith, inside, no_match n k few)

-- With any number of players that a u16 holds: a pair that the lookup gives is of two players
-- a < b < n.
pub get_pairing_for_match_order :
    (n config_k : ℕ) (seed : List ℕ) (index : ℕ) {a b : ℕ}
    → n < 65536
    → get_pairing_for_match n (effective_k n config_k) seed index ≡ some (a, b)
    → (a < b) × (b < n)
get_pairing_for_match_order n config_k seed index {a} {b} small e =
    let k = effective_k n config_k in
    let (c, inside, p, pair) = found_lem n k seed index e in
    elim (dec_le 2 n) [
      | yes several ↦
          (let t = effective_k-IsTournament n config_k several small in
            let lt = count_small n k t in
            let hc = feistel_permute-lt index _ (derive_feistel_keys seed) inside (omega arith) p in
            rw pair at (canonical_lem n k t seed c hc))
      | no few ↦ absurd (get_pairing_for_match-few n k seed index (omega arith) e)
    ]

-- With 2 to 5000 players, and the number of matches per player that `effective_k` makes of any
-- setting, every match index below the match count has a pair of players a < b < n.
pub get_pairing_for_match_total :
    (n config_k : ℕ) (seed : List ℕ) (index : ℕ)
    → 2 ≤ n
    → n ≤ 5000
    → index < calculate_match_count n (effective_k n config_k) seed
    → (a b : ℕ) × (get_pairing_for_match n (effective_k n config_k) seed index ≡ some (a, b))
      × (a < b)
      × (b < n)
unfolding calculate_match_count
get_pairing_for_match_total n config_k seed index several allowed lt =
    let k = effective_k n config_k in
    let t = effective_k-IsTournament n config_k several (omega arith) in
    let (c, e, hc, found) = lookup_lem n k t seed index allowed lt in
    let (lo, hi) = canonical_lem n k t seed c hc in
    ((canonical_to_pair n k seed c).0, (canonical_to_pair n k seed c).1, found, lo, hi)

-- With 2 to 5000 players, and the number of matches per player that `effective_k` makes of any
-- setting, no two match indexes have the same pair: nobody meets an opponent twice.
pub get_pairing_for_match_injective :
    (n config_k : ℕ) (seed : List ℕ) (i j : ℕ)
    → 2 ≤ n
    → n ≤ 5000
    → i < calculate_match_count n (effective_k n config_k) seed
    → j < calculate_match_count n (effective_k n config_k) seed
    → get_pairing_for_match n (effective_k n config_k) seed i
      ≡ get_pairing_for_match n (effective_k n config_k) seed j
    → i ≡ j
unfolding calculate_match_count
get_pairing_for_match_injective n config_k seed i j several allowed hi hj e =
    let k = effective_k n config_k in
    let t = effective_k-IsTournament n config_k several (omega arith) in
    let (c, ec, hc, fc) = lookup_lem n k t seed i allowed hi in
    let (d, ed, hd, fd) = lookup_lem n k t seed j allowed hj in
    let same : c ≡ d =
      canonical_injective n k t seed c d hc hd (some-injective _ _ (sym fc ∙ e ∙ fd)) in
    feistel_permute_injective i j (calculate_match_count_inner n k) c (derive_feistel_keys seed) hi
      hj (count_le n k t allowed) ec (rw same ed)

-- A tournament has at most 250,000 matches.
pub calculate_match_count_le :
    (n config_k : ℕ) (seed : List ℕ)
    → 2 ≤ n
    → n ≤ 5000
    → calculate_match_count n (effective_k n config_k) seed ≤ 250000
unfolding calculate_match_count
calculate_match_count_le n config_k seed several allowed =
    count_le n (effective_k n config_k) (effective_k-IsTournament n config_k several (omega arith))
      allowed
