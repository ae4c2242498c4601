-- ===== src/Pairing/Feistel/Network.antt =====
-- One pass of the Feistel network of crates/match-logic/src/pairing.rs on [0, half * half).
use prisoners_arena_program.Base.{
  ℕ, ◌+◌, ◌*◌, ◌/◌, ◌%◌, ◌≤◌, ◌<◌, ◌≡◌, arith, List, [], ◌∷◌, inl, inr, Bool-cases, ◌==◌, ap, sym,
}
use native.Mathlib.Decide.{dec_lt}
use native.Mathlib.Nat.{mod-lt}
use prisoners_arena_program.Pairing.Feistel.{feistel_round_fn, mix, feistel_rounds, feistel_pass}

add_mod_injective : (h c x y : ℕ) → x < h → y < h → c < h → (x + c) % h ≡ (y + c) % h → x ≡ y
add_mod_injective h c x y p q r e = grind arith

feistel_round_fn-lt : (input key h : ℕ) → 0 < h → feistel_round_fn input key h < h
unfolding feistel_round_fn
feistel_round_fn-lt input key h p = grind arith

div_mod_injective : (h x y : ℕ) → 0 < h → x / h ≡ y / h → x % h ≡ y % h → x ≡ y
div_mod_injective h x y p e f = grind arith

mul_step : (h l l' : ℕ) → l < l' → l * h + h ≤ l' * h
mul_step h l l' p = grind arith

join_le : (h l r l' r' : ℕ) → r' < h → l * h + r ≡ l' * h + r' → l ≤ l'
join_le h l r l' r' q e = elim (dec_lt l' l) [
  | yes p ↦ absurd (omega (arith, mul_step h l' l p))
  | no p ↦ omega arith
]

join_injective : (h l r l' r' : ℕ) → r < h → r' < h → l * h + r ≡ l' * h + r' → (l ≡ l') × (r ≡ r')
join_injective h l r l' r' p q e =
    let same : l ≡ l' = omega (arith, join_le h l r l' r' q e, join_le h l' r' l r p (sym e)) in
    (same, omega (arith, ap (λ (t : ℕ). t * h) same))

join-lt : (h l r : ℕ) → l < h → r < h → l * h + r < h * h
join-lt h l r p q = grind arith

div-lt : (h x : ℕ) → 0 < h → x < h * h → x / h < h
div-lt h x p q = grind arith

-- Both halves are below `half`.
abbrev pub Within : ℕ → ℕ × ℕ → Type 0
Within half (l, r) = (l < half) × (r < half)

mix-Within :
    (half i key : ℕ) (lr : ℕ × ℕ) → 0 < half → Within half lr → Within half (mix half i key lr)
unfolding mix
mix-Within half i key (l, r) p (hl, hr) = elim (Bool-cases (i % 2 == 0)) [
  | inl e ↦ rw (e, mix) (hl, mod-lt _ p)
  | inr e ↦ rw (e, mix) (mod-lt _ p, hr)
]

mix_injective :
    (half i key : ℕ) (x y : ℕ × ℕ)
    → 0 < half
    → Within half x
    → Within half y
    → mix half i key x ≡ mix half i key y
    → x ≡ y
unfolding mix
mix_injective half i key (l, r) (l', r') p (hl, hr) (hl', hr') e =
    let fl = feistel_round_fn-lt l key half p in
    let fr = feistel_round_fn-lt r key half p in
    elim (Bool-cases (i % 2 == 0)) [
      | inl c ↦ ground (arith, add_mod_injective half (feistel_round_fn l key half) r r' hr hr' fl)
      | inr c ↦ ground (arith, add_mod_injective half (feistel_round_fn r key half) l l' hl hl' fr)
    ]

feistel_rounds-Within :
    (half i : ℕ) (keys : List ℕ) (lr : ℕ × ℕ)
    → 0 < half
    → Within half lr
    → Within half (feistel_rounds half i keys lr)
unfolding feistel_rounds
feistel_rounds-Within half i [] lr p h = h
feistel_rounds-Within half i (key ∷ keys) lr p h =
    feistel_rounds-Within half (i + 1) keys (mix half i key lr) p (mix-Within half i key lr p h)

feistel_rounds_injective :
    (half i : ℕ) (keys : List ℕ) (x y : ℕ × ℕ)
    → 0 < half
    → Within half x
    → Within half y
    → feistel_rounds half i keys x ≡ feistel_rounds half i keys y
    → x ≡ y
unfolding feistel_rounds
feistel_rounds_injective half i [] x y p hx hy e = e
feistel_rounds_injective half i (key ∷ keys) x y p hx hy e = mix_injective half i key x y p hx hy (
    feistel_rounds_injective half (i + 1) keys (mix half i key x) (mix half i key y) p
      (mix-Within half i key x p hx) (mix-Within half i key y p hy) e)

split-Within : (half x : ℕ) → 0 < half → x < half * half → Within half (x / half, x % half)
split-Within half x p h = (div-lt half x p h, mod-lt x p)

pub feistel_pass-lt :
    (half : ℕ) (keys : List ℕ) (x : ℕ)
    → 0 < half
    → x < half * half
    → feistel_pass half keys x < half * half
unfolding feistel_pass
feistel_pass-lt half keys x p h =
    let w = feistel_rounds-Within half 0 keys (x / half, x % half) p (split-Within half x p h) in
    join-lt half _ _ w.0 w.1

-- Two values of the square that a pass takes to one value are equal, whatever the keys.
pub feistel_pass_injective :
    (half : ℕ) (keys : List ℕ) (x y : ℕ)
    → 0 < half
    → x < half * half
    → y < half * half
    → feistel_pass half keys x ≡ feistel_pass half keys y
    → x ≡ y
unfolding feistel_pass
feistel_pass_injective half keys x y p hx hy e =
    let wx = split-Within half x p hx in
    let wy = split-Within half y p hy in
    let mx = feistel_rounds-Within half 0 keys (x / half, x % half) p wx in
    let my = feistel_rounds-Within half 0 keys (y / half, y % half) p wy in
    let (el, er) = join_injective half _ _ _ _ mx.1 my.1 e in
    let same : ◌≡◌ {A = ℕ × ℕ} (x / half, x % half) (y / half, y % half) =
      feistel_rounds_injective half 0 keys (x / half, x % half) (y / half, y % half) p wx wy
        (λ i. (el i, er i)) in
    div_mod_injective half x y p (ap (λ (t : ℕ × ℕ). t.0) same) (ap (λ (t : ℕ × ℕ). t.1) same)
