-- ===== src/Pairing/Pairs/Unrank.antt =====
-- `unrank_pair` of crates/match-logic/src/pairing.rs: ranks count the pairs (a, b) with a < b.
use prisoners_arena_program.Base.{
  ℕ, zero, suc, ◌+◌, ◌-◌, ◌*◌, ◌/◌, ◌%◌, ◌^◌, ◌≤◌, ◌<◌, ◌≡◌, refl, sym, ◌∙◌, ap, arith, inl, inr,
  leb, Bool-cases, leb→le, leb_false→lt, mul_u32,
}
use native.Mathlib.Numerals.{add-one}
use native.Mathlib.Decide.{dec_le}
use prisoners_arena_program.Pairing.Roots.{newton}
use prisoners_arena_program.Pairing.Roots.Laws.{newton-IsRoot', mul_mono_both}
use prisoners_arena_program.Pairing.Pairs.{lower, raise, unrank_pair}

-- The number of pairs of numbers below `b`.
unfoldable pub triangle : ℕ → ℕ
triangle zero = 0
triangle (suc b) = b + triangle b

two_triangle : (b : ℕ) → (b + 1) * b ≡ 2 * triangle (suc b)
unfolding triangle
two_triangle zero = omega arith
two_triangle (suc b) = omega (arith, two_triangle b)

-- Up to 2^16 the machine's formula does not wrap.
half_product : (b : ℕ) → b < 65536 → mul_u32 (b + 1) b / 2 ≡ triangle (suc b)
half_product b h =
    omega (arith, two_triangle b, mul_mono_both (b + 1) b 65536 65535 (omega arith) (omega arith))

suc_half_product : (b : ℕ) → b < 65536 → mul_u32 (suc b) b / 2 ≡ triangle (suc b)
suc_half_product b h = rw add-one at (half_product b h)

suc_sub : (r : ℕ) → suc r - 1 ≡ r
suc_sub r = omega arith

pub triangle_mono : (a b : ℕ) → a ≤ b → triangle a ≤ triangle b
unfolding triangle
triangle_mono a zero h = rw (let e : a ≡ 0 = omega arith in e) (omega arith)
triangle_mono a (suc b) h = elim (dec_le a b) [
  | yes le ↦ omega (arith, triangle_mono a b le)
  | no gt ↦ rw (let e : a ≡ suc b = omega arith in e) (omega arith)
]

triangle_lt : (a b : ℕ) → triangle a < triangle b → a < b
triangle_lt a b h = elim (dec_le b a) [
  | yes le ↦ absurd (omega (arith, triangle_mono b a le))
  | no gt ↦ omega arith
]

le_triangle : (b : ℕ) → b ≤ triangle b + 1
unfolding triangle
le_triangle zero = omega arith
le_triangle (suc b) = omega (arith, le_triangle b, pos_triangle b)
  where
    pos_triangle : (c : ℕ) → c ≤ c + triangle c
    pos_triangle c = omega arith

module _ (rank : ℕ) where
  lower_lem : (b : ℕ) → b ≤ 65536 → triangle (lower rank b) ≤ rank
  unfolding lower
  lower_lem zero h = unfold triangle in omega arith
  lower_lem (suc b) h = ground (arith, suc_half_product b (omega arith), lower_lem b (omega arith))

  raise_lem :
      (n fuel b : ℕ)
      → n ≤ 65536
      → rank < triangle n
      → rank + 2 ≤ b + fuel
      → triangle b ≤ rank
      → (triangle (raise fuel rank b) ≤ rank) × (rank < triangle (suc (raise fuel rank b)))
  unfolding raise
  raise_lem n zero b hn hr hf hb = absurd (omega (arith, le_triangle b))
  raise_lem n (suc fuel) b hn hr hf hb =
      let small : b < n = triangle_lt b n (omega arith) in
      elim (Bool-cases (leb (mul_u32 (b + 1) b / 2) rank)) [
        | inl more ↦
            rw (more, raise)
              (raise_lem n fuel (b + 1) hn hr (omega arith)
                (rw add-one (omega (arith, half_product b (omega arith), leb→le _ _ more))))
        | inr done ↦
            rw (done, raise)
              (hb, omega (arith, half_product b (omega arith), leb_false→lt _ _ done))
      ]

root_small : (rank s : ℕ) → rank < 2147450880 → s * s ≤ 1 + 8 * rank → s < 131072
root_small rank s h k = elim (dec_le 131072 s) [
  | yes le ↦ absurd (omega (arith, mul_mono_both 131072 131072 s s le le))
  | no gt ↦ omega arith
]

rank_small : (n rank : ℕ) → n ≤ 65536 → rank < triangle n → rank < 2147450880
rank_small n rank h k = omega (arith, triangle_mono n 65536 h, two_triangle 65535)

-- What `b` is after the two correcting loops, whatever the estimate that they start from.
unranked_lem :
    (n rank : ℕ)
    → n ≤ 65536
    → rank < triangle n
    → (r : ℕ) → triangle r ≤ rank
    → rank < triangle (suc r)
    → (rank - mul_u32 r (r - 1) / 2 < r)
      × (r < n)
      × (triangle r + (rank - mul_u32 r (r - 1) / 2) ≡ rank)
unranked_lem n rank hn hr zero lo hi = absurd (unfold triangle in omega arith)
unranked_lem n rank hn hr (suc r) lo hi =
    let small : suc r < n = triangle_lt (suc r) n (omega arith) in
    let half : mul_u32 (suc r) (suc r - 1) / 2 ≡ triangle (suc r) =
      rw (suc_sub r) (suc_half_product r (omega arith)) in
    let next : triangle (suc (suc r)) ≡ suc r + triangle (suc r) = unfold triangle in refl in
    (omega arith, small, omega arith)

-- Below the number of pairs of n ≤ 65536 players, `unrank_pair` gives the pair (a, b) with
-- a < b < n whose rank b * (b - 1) / 2 + a it was given.
pub unrank_pair_lem :
    (n rank : ℕ)
    → n ≤ 65536
    → rank < triangle n
    → let (a, b) = unrank_pair rank in (a < b) × (b < n) × (triangle b + a ≡ rank)
unfolding unrank_pair
unrank_pair_lem n rank hn hr =
    let val = 1 + 8 * rank in
    let tiny = rank_small n rank hn hr in
    let s = newton val (2 ^ 64) val val ((val + 1) % 2 ^ 64 / 2) in
    let root = newton-IsRoot' (2 ^ 64) val (omega arith) (omega arith) in
    let below = root_small rank s tiny root.0 in
    let estimate = (1 + s) / 2 % 2 ^ 32 in
    let r = raise (rank + 2) rank (lower rank estimate) in
    let (lo, hi) =
      raise_lem rank n (rank + 2) (lower rank estimate) hn hr (omega arith)
        (lower_lem rank estimate (omega arith)) in
    unranked_lem n rank hn hr r lo hi

-- So two ranks with one pair are equal.
pub unrank_pair_injective :
    (n rank rank' : ℕ)
    → n ≤ 65536
    → rank < triangle n
    → rank' < triangle n
    → unrank_pair rank ≡ unrank_pair rank'
    → rank ≡ rank'
unrank_pair_injective n rank rank' hn h h' e =
    let p = unrank_pair_lem n rank hn h in
    let q = unrank_pair_lem n rank' hn h' in
    sym p.2 ∙ ap (λ (t : ℕ × ℕ). triangle t.1 + t.0) e ∙ q.2

-- The formula for the number of pairs of n players, as the program computes it.
pub pairs-eq-triangle : (n : ℕ) → n ≤ 65536 → mul_u32 n (n - 1) / 2 ≡ triangle n
pairs-eq-triangle zero h = unfold triangle in refl
pairs-eq-triangle (suc n) h = rw (suc_sub n) (suc_half_product n (omega arith))

pub triangle_200 : triangle 200 ≡ 19900
triangle_200 = omega (arith, two_triangle 199)
