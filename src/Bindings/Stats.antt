-- ===== src/Bindings/Stats.antt =====
-- crates/match-logic/src/wasm.rs: `get_matchmaking_stats` against the number of matches.
use prisoners_arena_program.Base.{
  ℕ, ◌+◌, ◌-◌, ◌*◌, ◌/◌, ◌%◌, ◌^◌, ◌≤◌, ◌<◌, ◌≡◌, arith, List, leb, ◌==◌, if◌then◌else◌, Bool-cases,
  inl, inr, ap,
}
use prisoners_arena_program.Pairing.Roots.Laws.{mul_mono_both}
use prisoners_arena_program.Pairing.{calculate_match_count}
use prisoners_arena_program.Pairing.Counts.{effective_k, available}
use prisoners_arena_program.Pairing.Schedule.{
  effective_k-IsTournament, small_k, large_k, count_round_robin, count_circular,
}
use prisoners_arena_program.Pairing.Offsets.{offset_count}
use prisoners_arena_program.Pairing.Pairs.Unrank.{triangle, pairs-eq-triangle}
use prisoners_arena_program.Bindings.{get_matchmaking_stats}

-- The matches that the formula of the statistics leaves out.
abbrev pub left_out : ℕ → ℕ → ℕ
left_out n k = if leb n 200 then 0 else k % 2 * ((n + 1) / 2)

half_of_even : (n q : ℕ) → n * (2 * q) / 2 ≡ q * n
half_of_even n q = omega arith

half_of_odd : (n q : ℕ) → n * (2 * q + 1) / 2 + (n + 1) / 2 ≡ (q + 1) * n
half_of_odd n q = omega arith

total_round_robin : (n k : ℕ) → n ≤ 200 → 2 ≤ n → k ≡ n - 1 → n * k % 2 ^ 32 / 2 ≡ triangle n
total_round_robin n k small several e = rw e (pairs-eq-triangle n (omega arith))

total_circular :
    (n k : ℕ)
    → n ≤ 5000
    → 200 < n
    → 49 ≤ k
    → k ≤ 99
    → n * k % 2 ^ 32 / 2 + k % 2 * ((n + 1) / 2) ≡ offset_count n k * n
unfolding offset_count available
total_circular n k small large lo hi =
    let q = k / 2 in
    let room : n * k < 2 ^ 32 = omega (arith, mul_mono_both n k 5000 99 small hi) in
    let whole : n * k % 2 ^ 32 ≡ n * k = omega (arith, room) in
    elim (Bool-cases (k % 2 == 0)) [
      | inl even ↦
          (let e : k ≡ 2 * q = ground arith in
            let few : offset_count n k ≡ q = ground arith in
            let r : k % 2 ≡ 0 = ground arith in
            rw (few, r, whole) (omega (arith, half_of_even n q, ap (λ j. n * j / 2) e)))
      | inr odd ↦
          (let e : k ≡ 2 * q + 1 = ground arith in
            let few : offset_count n k ≡ q + 1 = ground arith in
            let r : k % 2 ≡ 1 = ground arith in
            rw (few, r, whole) (omega (arith, half_of_odd n q, ap (λ j. n * j / 2) e)))
    ]

-- With 2 to 5000 players and any setting of matches per player: the number of matches that the
-- statistics tell is the match count of the schedule less half a match per player, rounded up, if
-- there are more than 200 players and an odd number of matches for each.
pub total_matches-short :
    (n config_k : ℕ) (seed : List ℕ)
    → 2 ≤ n
    → n ≤ 5000
    → (get_matchmaking_stats n config_k).total_matches + left_out n (effective_k n config_k)
      ≡ calculate_match_count n (effective_k n config_k) seed
unfolding get_matchmaking_stats calculate_match_count
total_matches-short n config_k seed several allowed =
    let k = effective_k n config_k in
    let t = effective_k-IsTournament n config_k several (omega arith) in
    elim (Bool-cases (leb n 200)) [
      | inl small ↦
          (let le : n ≤ 200 = ground arith in
            rw small (
              omega (
                arith,
                total_round_robin n k le several (small_k n k t le),
                count_round_robin n k t le,
              )))
      | inr large ↦
          (let gt : 200 < n = ground arith in
            let (lo, hi) = large_k n k t gt in
            rw large (omega (arith, total_circular n k allowed gt lo hi, count_circular n k t gt)))
    ]
