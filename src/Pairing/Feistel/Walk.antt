-- ===== src/Pairing/Feistel/Walk.antt =====
-- The cycle walking of `feistel_permute` of crates/match-logic/src/pairing.rs.
use prisoners_arena_program.Base.{
  ℕ, zero, suc, ◌+◌, ◌-◌, ◌*◌, ◌≤◌, ◌<◌, ◌≡◌, refl, sym, ◌∙◌, ap, arith, List, none, some, inl, inr,
  ltb, Option-cases, Bool-cases, ltb_false→le,
}
use native.Mathlib.Nat.{add-zero}
use native.Mathlib.Decide.{dec_le}
use prisoners_arena_program.Base.Pigeonhole.{pigeonhole}
use prisoners_arena_program.Pairing.Feistel.{feistel_pass, walk}
use prisoners_arena_program.Pairing.Feistel.Network.{feistel_pass-lt, feistel_pass_injective}

-- `k` passes.
iterate : ℕ → List ℕ → ℕ → ℕ → ℕ
iterate half keys zero x = x
iterate half keys (suc k) x = iterate half keys k (feistel_pass half keys x)

add_suc : (a b : ℕ) → a + suc b ≡ suc (a + b)
add_suc a b = omega arith

split_at : (a b : ℕ) → a ≤ b → b ≡ a + (b - a)
split_at a b h = omega arith

sub_suc : (a b : ℕ) → suc a - suc b ≡ a - b
sub_suc a b = omega arith

module _ (half : ℕ) (keys : List ℕ) (positive : 0 < half) where
  iterate-lt : (k x : ℕ) → x < half * half → iterate half keys k x < half * half
  unfolding iterate
  iterate-lt zero x h = h
  iterate-lt (suc k) x h = iterate-lt k _ (feistel_pass-lt half keys x positive h)

  iterate_injective :
      (k x y : ℕ)
      → x < half * half
      → y < half * half
      → iterate half keys k x ≡ iterate half keys k y
      → x ≡ y
  unfolding iterate
  iterate_injective zero x y hx hy e = e
  iterate_injective (suc k) x y hx hy e = feistel_pass_injective half keys x y positive hx hy (
      iterate_injective k _ _ (feistel_pass-lt half keys x positive hx)
        (feistel_pass-lt half keys y positive hy) e)

  iterate_add :
      (a b x : ℕ) → iterate half keys (a + b) x ≡ iterate half keys a (iterate half keys b x)
  unfolding iterate
  iterate_add a zero x = ap (λ n. iterate half keys n x) (add-zero a)
  iterate_add a (suc b) x =
      ap (λ n. iterate half keys n x) (add_suc a b) ∙ iterate_add a b (feistel_pass half keys x)

  -- If `a` passes from `x` and `b` passes from `y` meet and a ≤ b, then `x` is b - a passes from `y`.
  iterate_meet :
      (a b x y : ℕ)
      → x < half * half
      → y < half * half
      → a ≤ b
      → iterate half keys a x ≡ iterate half keys b y
      → x ≡ iterate half keys (b - a) y
  iterate_meet a b x y hx hy le e =
      iterate_injective a x (iterate half keys (b - a) y) hx (iterate-lt (b - a) y hy)
        (e ∙ ap (λ n. iterate half keys n y) (split_at a b le) ∙ iterate_add a (b - a) y)

  -- What a walk has done when it returns: k + 1 passes, the values between out of the domain.
  record Walked (domain x z : ℕ) : Type 0 where
    passes : ℕ
    arrives : iterate half keys (suc passes) x ≡ z
    inside : z < domain
    outside : (i : ℕ) → i < passes → domain ≤ iterate half keys (suc i) x

  Walked-step :
      (domain x z : ℕ)
      → domain ≤ feistel_pass half keys x
      → Walked domain (feistel_pass half keys x) z
      → Walked domain x z
  unfolding iterate
  Walked-step domain x z out w = record {
    passes = suc w.passes;
    arrives = w.arrives;
    inside = w.inside;
    outside = between;
  }
    where
      between : (i : ℕ) → i < suc w.passes → domain ≤ iterate half keys (suc i) x
      between zero h = out
      between (suc i) h = w.outside i (omega arith)

  walk-Walked : (left domain x z : ℕ) → walk left half keys domain x ≡ some z → Walked domain x z
  unfolding walk iterate
  walk-Walked zero domain x z h = cc
  walk-Walked (suc left) domain x z h = elim (Bool-cases (ltb (feistel_pass half keys x) domain)) [
    | inl e ↦ record {
      passes = 0;
      arrives = ground arith;
      inside = ground arith;
      outside = λ i lt. elim lt [ ];
    }
    | inr e ↦
        Walked-step domain x z (ltb_false→le _ _ e)
          (walk-Walked left domain (feistel_pass half keys x) z (ground arith))
  ]

  -- The shorter of two walks to one value is a tail of the longer, and begins in the domain.
  Walked-le :
      (domain x y z : ℕ)
      → domain ≤ half * half
      → x < domain
      → y < domain
      → (w : Walked domain x z) (v : Walked domain y z) → w.passes ≤ v.passes
      → x ≡ y
  unfolding iterate
  Walked-le domain x y z fits hx hy w v le = tail (v.passes - w.passes) (omega arith) (
      iterate_meet (suc w.passes) (suc v.passes) x y (omega arith) (omega arith) (omega arith)
        (w.arrives ∙ sym v.arrives)
      ∙ ap (λ n. iterate half keys n y) (sub_suc v.passes w.passes))
    where
      tail : (n : ℕ) → n ≤ v.passes → x ≡ iterate half keys n y → x ≡ y
      tail zero h e = e
      tail (suc n) h e = absurd (omega (arith, v.outside n (omega arith), e))

  pub walk_injective :
      (left left' domain x y z : ℕ)
      → domain ≤ half * half
      → x < domain
      → y < domain
      → walk left half keys domain x ≡ some z
      → walk left' half keys domain y ≡ some z
      → x ≡ y
  walk_injective left left' domain x y z fits hx hy p q =
      let w = walk-Walked left domain x z p in
      let v = walk-Walked left' domain y z q in
      elim (dec_le w.passes v.passes) [
        | yes le ↦ Walked-le domain x y z fits hx hy w v le
        | no gt ↦ sym (Walked-le domain y x z fits hy hx v w (omega arith))
      ]

  pub walk-lt : (left domain x z : ℕ) → walk left half keys domain x ≡ some z → z < domain
  walk-lt left domain x z h = (walk-Walked left domain x z h).inside

  -- A walk that has not returned has been out of the domain after every pass.
  walk-none :
      (left domain x : ℕ)
      → walk left half keys domain x ≡ none
      → (i : ℕ) → i < left
      → domain ≤ iterate half keys (suc i) x
  unfolding walk iterate
  walk-none zero domain x h i lt = elim lt [ ]
  walk-none (suc left) domain x h zero lt = ground arith
  walk-none (suc left) domain x h (suc i) lt =
      walk-none left domain (feistel_pass half keys x) (ground arith) i (omega arith)

  -- The values that such a walk has passed are distinct.
  walk-none_distinct :
      (left domain x : ℕ)
      → domain ≤ half * half
      → x < domain
      → walk left half keys domain x ≡ none
      → (i j : ℕ) → i < left
      → j < left
      → i ≤ j
      → iterate half keys (suc i) x ≡ iterate half keys (suc j) x
      → i ≡ j
  unfolding iterate
  walk-none_distinct left domain x fits hx h i j hi hj le e = tail (j - i) refl (
      iterate_meet (suc i) (suc j) x x (omega arith) (omega arith) (omega arith) e
      ∙ ap (λ n. iterate half keys n x) (sub_suc j i))
    where
      tail : (n : ℕ) → j - i ≡ n → x ≡ iterate half keys n x → i ≡ j
      tail zero d q = omega arith
      tail (suc n) d q = absurd (omega (arith, walk-none left domain x h n (omega arith), q))

  -- With more passes than the square has values out of the domain, a walk returns.
  pub walk_total :
      (left domain x : ℕ)
      → domain ≤ half * half
      → x < domain
      → half * half < domain + left
      → (z : ℕ) × (walk left half keys domain x ≡ some z)
  walk_total left domain x fits hx enough = elim (Option-cases (walk left half keys domain x)) [
    | inr found ↦ found
    | inl h ↦ absurd (
        omega (
          arith,
          pigeonhole (half * half - domain) left (λ i. iterate half keys (suc i) x - domain)
              (λ i hi.
                omega (arith, walk-none left domain x h i hi, iterate-lt (suc i) x (omega arith)))
              (λ i j hi hj e. distinct h i j hi hj e),
        ))
  ]
    where
      distinct :
          walk left half keys domain x ≡ none
          → (i j : ℕ) → i < left
          → j < left
          → iterate half keys (suc i) x - domain ≡ iterate half keys (suc j) x - domain
          → i ≡ j
      distinct h i j hi hj e =
          let same : iterate half keys (suc i) x ≡ iterate half keys (suc j) x =
            omega (arith, walk-none left domain x h i hi, walk-none left domain x h j hj) in
          elim (dec_le i j) [
            | yes le ↦ walk-none_distinct left domain x fits hx h i j hi hj le same
            | no gt ↦
                sym (walk-none_distinct left domain x fits hx h j i hj hi (omega arith) (sym same))
          ]
