-- ===== src/Pairing/Meeting.antt =====
-- Who meets whom in a tournament of crates/match-logic/src/pairing.rs.
use prisoners_arena_program.Base.{
  ℕ, suc, ◌+◌, ◌*◌, ◌/◌, ◌%◌, ◌≤◌, ◌<◌, ◌≡◌, refl, arith, sym, ◌∙◌, ap, none, some, List, length,
  get_or, ltb, if◌then◌else◌, Bool-cases, inl, inr, min, max, add_u32,
}
use native.Mathlib.Decide.{dec_le}
use mathlib.Core.Option.{some-injective}
use prisoners_arena_program.Base.Pigeonhole.{pigeonhole_onto}
use prisoners_arena_program.Pairing.{
  get_pairing_for_match, canonical_to_pair, calculate_match_count,
}
use prisoners_arena_program.Pairing.Counts.{effective_k, calculate_match_count_inner, available}
use prisoners_arena_program.Pairing.Feistel.{derive_feistel_keys, feistel_permute}
use prisoners_arena_program.Pairing.Feistel.Permutation.{
  feistel_permute_total, feistel_permute_injective,
}
use prisoners_arena_program.Pairing.Offsets.{offset_count, select_offsets}
use prisoners_arena_program.Pairing.Offsets.Laws.{AllBelow-get_or, select_offsets_lem}
use prisoners_arena_program.Pairing.Pairs.{canonical_to_pair_circular}
use prisoners_arena_program.Pairing.Pairs.Unrank.{triangle, triangle_mono, unrank_pair_lem}
use prisoners_arena_program.Pairing.Schedule.{
  IsTournament, effective_k-IsTournament, count_round_robin, count_circular, as_round_robin,
  as_circular, lookup_lem, count_le,
}

-- The permuted index, 0 where there is none.
permuted : ℕ → List ℕ → ℕ → ℕ
permuted domain keys i = elim (feistel_permute i domain keys) [ none ↦ 0 | some z ↦ z ]

permuted-at :
    (domain : ℕ) (keys : List ℕ) (i : ℕ) {z : ℕ}
    → feistel_permute i domain keys ≡ some z
    → permuted domain keys i ≡ z
unfolding permuted
permuted-at domain keys i e = rw (permuted, e) refl

permuted-some :
    (domain : ℕ) (keys : List ℕ) (i : ℕ)
    → i < domain
    → domain ≤ 250000
    → (feistel_permute i domain keys ≡ some (permuted domain keys i))
      × (permuted domain keys i < domain)
permuted-some domain keys i h hd =
    let (z, e, lt) = feistel_permute_total i domain keys h hd in
    let v = permuted-at domain keys i e in (e ∙ ap some (sym v), omega (arith, v))

-- Every index of the domain is the permuted one of some index.
feistel_permute_onto :
    (domain : ℕ) (keys : List ℕ) (z : ℕ)
    → domain ≤ 250000
    → z < domain
    → (i : ℕ) × (i < domain) × (feistel_permute i domain keys ≡ some z)
feistel_permute_onto domain keys z hd h =
    let (i, lt, e) =
      pigeonhole_onto domain (permuted domain keys) (λ i lt. (permuted-some domain keys i lt hd).1)
        (λ i j lt lt' e.
          feistel_permute_injective i j domain (permuted domain keys i) keys lt lt' hd
            (permuted-some domain keys i lt hd).0
            ((permuted-some domain keys j lt' hd).0 ∙ ap some (sym e)))
        z h in
    (i, lt, (permuted-some domain keys i lt hd).0 ∙ ap some e)

rank_unique :
    (a b a' b' : ℕ) → a < b → a' < b' → triangle b + a ≡ triangle b' + a' → (a ≡ a') × (b ≡ b')
unfolding triangle
rank_unique a b a' b' h h' e = elim (dec_le (suc b) b') [
  | yes less ↦ absurd (omega (arith, triangle_mono (suc b) b' less))
  | no at_least ↦ elim (dec_le (suc b') b) [
    | yes more ↦ absurd (omega (arith, triangle_mono (suc b') b more))
    | no same ↦ (let eb : b ≡ b' = omega arith in (omega (arith, ap triangle eb), eb))
  ]
]

module _ (n k : ℕ) (t : IsTournament n k) where
  -- Every canonical index is behind some match.
  match_of_canonical :
      (seed : List ℕ) (c : ℕ)
      → n ≤ 5000
      → c < calculate_match_count_inner n k
      → (i : ℕ) × (i < calculate_match_count_inner n k)
        × (get_pairing_for_match n k seed i ≡ some (canonical_to_pair n k seed c))
  match_of_canonical seed c allowed h =
      let (i, lt, e) =
        feistel_permute_onto (calculate_match_count_inner n k) (derive_feistel_keys seed) c
          (count_le n k t allowed) h in
      let (d, f, _, found) = lookup_lem n k t seed i allowed lt in
      let same : d ≡ c = some-injective _ _ (sym f ∙ e) in
      (i, lt, found ∙ ap (λ x. some (canonical_to_pair n k seed x)) same)

same_pair : {u : ℕ × ℕ} {a b : ℕ} → u.0 ≡ a → u.1 ≡ b → u ≡ (a, b)
same_pair e f = cc

index_mod : (n g p : ℕ) → p < n → (g * n + p) % n ≡ p
index_mod n g p h = grind arith

index_div : (n g p : ℕ) → p < n → (g * n + p) / n ≡ g
index_div n g p h = grind arith

in_rows : (n m g p : ℕ) → p < n → g < m → g * n + p < m * n
in_rows n m g p h lt = grind arith

below_half : (n d : ℕ) → 2 ≤ n → d < available n + 1 → d < n
unfolding available
below_half n d h lt = ground arith

-- The pair of player `p` at the offset in place `g`.
circular_pair :
    (n p g : ℕ) (offsets : List ℕ)
    → p < n
    → n ≤ 5000
    → get_or offsets g 0 < n
    → canonical_to_pair_circular (g * n + p) n offsets
      ≡ (min p ((p + get_or offsets g 0) % n), max p ((p + get_or offsets g 0) % n))
unfolding canonical_to_pair_circular
circular_pair n p g offsets h allowed small =
    let d = get_or offsets g 0 in
    let sum : add_u32 p d ≡ p + d = omega arith in
    let q = (p + d) % n in
    let step : canonical_to_pair_circular (g * n + p) n offsets
        ≡ (if ltb p q then (p, q) else (q, p)) =
      rw (index_mod n g p h, index_div n g p h, sum) refl in
    step ∙ elim (Bool-cases (ltb p q)) [
      | inl less ↦ rw less (same_pair (ground arith) (ground arith))
      | inr more ↦ rw more (same_pair (ground arith) (ground arith))
    ]

-- Up to 200 players, whatever the setting of matches per player: every two players have a match.
pub round_robin_meets :
    (n config_k : ℕ) (seed : List ℕ) (a b : ℕ)
    → n ≤ 200
    → a < b
    → b < n
    → (i : ℕ) × (i < calculate_match_count n (effective_k n config_k) seed)
      × (get_pairing_for_match n (effective_k n config_k) seed i ≡ some (a, b))
unfolding calculate_match_count triangle
round_robin_meets n config_k seed a b small h below =
    let k = effective_k n config_k in
    let t = effective_k-IsTournament n config_k (omega arith) (omega arith) in
    let rank = triangle b + a in
    let inside : rank < triangle n = omega (arith, triangle_mono (suc b) n below) in
    let (i, lt, found) =
      match_of_canonical n k t seed rank (omega arith)
        (omega (arith, inside, count_round_robin n k t small)) in
    let (lo, hi, ranked) = unrank_pair_lem n rank (omega arith) inside in
    let (ea, eb) = rank_unique _ _ a b lo h ranked in
    (i, lt, found ∙ ap some (as_round_robin n k t seed rank small inside ∙ same_pair ea eb))

-- With more than 200 and at most 5000 players: each player has a match with the player who is any of
-- the drawn offsets further on, counted round the circle of the players.
pub circular_meets :
    (n config_k : ℕ) (seed : List ℕ) (p g : ℕ)
    → 200 < n
    → n ≤ 5000
    → p < n
    → g < length (select_offsets n (effective_k n config_k) seed)
    → let q = (p + get_or (select_offsets n (effective_k n config_k) seed) g 0) % n in
      (i : ℕ) × (i < calculate_match_count n (effective_k n config_k) seed)
      × (get_pairing_for_match n (effective_k n config_k) seed i ≡ some (min p q, max p q))
unfolding calculate_match_count
circular_meets n config_k seed p g large allowed h inside =
    let k = effective_k n config_k in
    let t = effective_k-IsTournament n config_k (omega arith) (omega arith) in
    let d = get_or (select_offsets n k seed) g 0 in
    let (within, _, count) = select_offsets_lem n k seed in
    let (lo, hi) = AllBelow-get_or (available n + 1) (select_offsets n k seed) g within inside in
    let short : d < n = below_half n d (omega arith) hi in
    let room : g * n + p < offset_count n k * n =
      in_rows n (offset_count n k) g p h (omega (arith, count, inside)) in
    let (i, lt, found) =
      match_of_canonical n k t seed (g * n + p) allowed
        (omega (arith, room, count_circular n k t large)) in
    (
      i,
      lt,
      found
          ∙ ap some (
              as_circular n k t seed (g * n + p) large
              ∙ circular_pair n p g (select_offsets n k seed) h allowed short),
    )
