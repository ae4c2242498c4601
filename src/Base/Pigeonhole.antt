-- ===== src/Base/Pigeonhole.antt =====
-- The pigeonhole principle on initial segments of the native numbers.
use prisoners_arena_program.Base.{
  ℕ, zero, suc, ◌-◌, ◌≤◌, ◌<◌, ◌≡◌, ◌≢◌, ◌⊎◌, inl, inr, arith, ltb, ◌==◌, if◌then◌else◌, Bool-cases,
  ==→eq, ==_false→ne, ap, ◌∙◌,
}
use native.Mathlib.Decide.{dec_le}

-- The value that `f` takes at the last argument, put where `f` takes the largest value.
reroute : (ℕ → ℕ) → ℕ → ℕ → ℕ → ℕ
reroute f d last i = if f i == d then f last else f i

module _ (f : ℕ → ℕ) (n d : ℕ) where
  reroute-lt :
      ((i : ℕ) → i < suc n → f i < suc d)
      → ((i j : ℕ) → i < suc n → j < suc n → f i ≡ f j → i ≡ j)
      → (i : ℕ) → i < n
      → reroute f d n i < d
  unfolding reroute
  reroute-lt b inj i h = ground (
    arith,
    b i (omega arith),
    b n (omega arith),
    λ (e : f i ≡ f n). inj i n (omega arith) (omega arith) e,
  )

  reroute_injective :
      ((i j : ℕ) → i < suc n → j < suc n → f i ≡ f j → i ≡ j)
      → (i j : ℕ) → i < n
      → j < n
      → reroute f d n i ≡ reroute f d n j
      → i ≡ j
  unfolding reroute
  reroute_injective inj i j h k e = ground (
    arith,
    λ (e : f i ≡ f j). inj i j (omega arith) (omega arith) e,
    λ (e : f i ≡ f n). inj i n (omega arith) (omega arith) e,
    λ (e : f n ≡ f j). inj n j (omega arith) (omega arith) e,
  )

-- An injective function from n numbers into d numbers has n ≤ d.
pub pigeonhole :
    (d n : ℕ) (f : ℕ → ℕ)
    → ((i : ℕ) → i < n → f i < d)
    → ((i j : ℕ) → i < n → j < n → f i ≡ f j → i ≡ j)
    → n ≤ d
pigeonhole d zero f b inj = omega arith
pigeonhole zero (suc n) f b inj = absurd (omega (arith, b 0 (omega arith)))
pigeonhole (suc d) (suc n) f b inj =
    omega
      (arith, pigeonhole d n (reroute f d n) (reroute-lt f n d b inj) (reroute_injective f n d inj))

-- Whether `f` takes the value `z` below `n`.
search_value : (f : ℕ → ℕ) (z n : ℕ) → ((i : ℕ) × (i < n) × (f i ≡ z)) ⊎ ((i : ℕ) → i < n → f i ≢ z)
search_value f z zero = inr (λ i h. absurd (omega arith))
search_value f z (suc n) = elim (search_value f z n) [
  | inl (i, h, e) ↦ inl (i, omega arith, e)
  | inr other ↦ elim (Bool-cases (f n == z)) [
    | inl last ↦ inl (n, omega arith, ==→eq (f n) z last)
    | inr no_last ↦ inr (λ i h e. elim (dec_le n i) [
      | yes same ↦ (let at : n ≡ i = omega arith in ==_false→ne (f n) z no_last (ap f at ∙ e))
      | no less ↦ other i (omega arith) e
    ])
  ]
]

-- The values but `z`, with those above it moved down.
squeeze : (ℕ → ℕ) → ℕ → ℕ → ℕ
squeeze f z i = if ltb z (f i) then f i - 1 else f i

-- An injective function from n numbers into as many takes each of them as its value.
pub pigeonhole_onto :
    (n : ℕ) (f : ℕ → ℕ)
    → ((i : ℕ) → i < n → f i < n)
    → ((i j : ℕ) → i < n → j < n → f i ≡ f j → i ≡ j)
    → (z : ℕ) → z < n
    → (i : ℕ) × (i < n) × (f i ≡ z)
unfolding squeeze
pigeonhole_onto n f b inj z h = elim (search_value f z n) [
  | inl found ↦ found
  | inr missed ↦
      (let few =
          pigeonhole (n - 1) n (squeeze f z)
            (λ i lt. let ne = missed i lt in let below = b i lt in ground arith)
            (λ i j lt lt' e.
              let ne = missed i lt in let ne' = missed j lt' in inj i j lt lt' (ground arith)) in
        absurd (omega arith))
]
