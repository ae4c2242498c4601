-- ===== src/Pairing/Roots/Laws.antt =====
-- Integer square roots of crates/match-logic/src/pairing.rs: the Newton iteration and `isqrt_ceil`.
use prisoners_arena_program.Base.{
  ℕ, zero, suc, ◌+◌, ◌-◌, ◌*◌, ◌/◌, ◌%◌, ◌^◌, ◌≤◌, ◌<◌, ◌≡◌, ◌≢◌, refl, ap, sym, ◌∙◌, ◌⊎◌, arith,
  inl, inr, ltb, leb, ◌==◌, Bool-cases, ltb→lt, ltb_false→le, leb→le, leb_false→lt, ==→eq,
  ==_false→ne,
}
use native.Mathlib.Nat.{mul_comm, mod-eq_of_lt}
use native.Mathlib.Decide.{dec_le}
use prisoners_arena_program.Pairing.Roots.{newton, isqrt_ceil}

-- The square root of `n`, rounded down.
abbrev pub IsRoot : ℕ → ℕ → Type 0
IsRoot n r = (r * r ≤ n) × (n < (r + 1) * (r + 1))

mul_mono : (a d e : ℕ) → d ≤ e → a * d ≤ a * e
mul_mono a d e h = grind arith

pub mul_mono_both : (a b c d : ℕ) → a ≤ c → b ≤ d → a * b ≤ c * d
mul_mono_both a b c d h k = grind arith

amgm_at : (a d e : ℕ) → d ≤ 2 * e → a * (a + d) ≤ (a + e) * (a + e)
amgm_at a d e h = omega (arith, mul_mono a d (2 * e) h)

amgm_le : (a d c : ℕ) → a + (a + d) ≤ 2 * c → a * (a + d) ≤ c * c
amgm_le a d c h = let e : c ≡ a + (c - a) = omega arith in rw e (amgm_at a d (c - a) (omega arith))

-- The product of two numbers is at most the square of their mean.
amgm : (a b c : ℕ) → a + b ≤ 2 * c → a * b ≤ c * c
amgm a b c h = elim (dec_le a b) [
  | yes le ↦ let e : b ≡ a + (b - a) = omega arith in rw e (amgm_le a (b - a) c (omega arith))
  | no gt ↦
      let e : a ≡ b + (a - b) = omega arith in
      rw (e, mul_comm (b + (a - b)) b) (amgm_le b (a - b) c (omega arith))
]

lt_mul_div : (n x : ℕ) → 0 < x → n < x * (n / x + 1)
lt_mul_div n x p = grind arith

-- One round stays above the root.
newton_above : (n x : ℕ) → 0 < x → n < ((x + n / x) / 2 + 1) * ((x + n / x) / 2 + 1)
newton_above n x p =
    omega (arith, lt_mul_div n x p, amgm x (n / x + 1) ((x + n / x) / 2 + 1) (omega arith))

-- Where the iteration stops it is not above the root.
newton_stop : (n x : ℕ) → 0 < x → x ≤ (x + n / x) / 2 → x * x ≤ n
newton_stop n x p h = grind arith

div_le : (n y : ℕ) → n / y ≤ n
div_le n y = grind arith

pos_of_above : (n y : ℕ) → 0 < n → n < (y + 1) * (y + 1) → 0 < y
pos_of_above n zero p h = omega arith
pos_of_above n (suc y) p h = omega arith

-- From any positive start that is not below the root, the loop ends at the root.
newton-IsRoot :
    (fuel word n x y : ℕ)
    → 0 < n
    → 2 * n < word
    → x ≤ fuel
    → 0 < x
    → x ≤ n
    → n < (x + 1) * (x + 1)
    → y ≡ (x + n / x) / 2
    → IsRoot n (newton fuel word n x y)
unfolding newton
newton-IsRoot zero word n x y pn hw hf px hx above e = absurd (omega arith)
newton-IsRoot (suc fuel) word n x y pn hw hf px hx above e = elim (Bool-cases (ltb y x)) [
  | inr stop ↦
      rw (stop, newton) (newton_stop n x px (omega (arith, e, ltb_false→le y x stop)), above)
  | inl more ↦
      rw (more, newton)
        (let lt = ltb→lt y x more in
          let above' : n < (y + 1) * (y + 1) = rw e (newton_above n x px) in
          let py = pos_of_above n y pn above' in
          newton-IsRoot fuel word n y ((y + n / y) % word / 2) pn hw (omega arith) py (omega arith)
            above' (ap (λ t. t / 2) (mod-eq_of_lt (omega (arith, div_le n y)))))
]

self_above : (n : ℕ) → n < (n + 1) * (n + 1)
self_above n = grind arith

div_self : (n : ℕ) → 0 < n → n / n ≡ 1
div_self n h = grind arith

-- The loop as the program starts it, at a word size that holds twice the number.
pub newton-IsRoot' :
    (word n : ℕ) → 0 < n → 2 * n < word → IsRoot n (newton n word n n ((n + 1) % word / 2))
newton-IsRoot' word n p h =
    newton-IsRoot n word n n ((n + 1) % word / 2) p h (omega arith) p (omega arith) (self_above n)
      (ap (λ t. t / 2) (mod-eq_of_lt (omega arith) ∙ ap (λ t. n + t) (sym (div_self n p))))

-- The square root of `n`, rounded up: the least number whose square is at least `n`.
abbrev pub IsCeil : ℕ → ℕ → Type 0
IsCeil n r = (n ≤ r * r) × ((r ≡ 0) ⊎ ((r - 1) * (r - 1) < n))

IsCeil-small : (n : ℕ) → n ≤ 1 → IsCeil n n
IsCeil-small zero h = (omega arith, inl refl)
IsCeil-small (suc zero) h = (omega arith, inr (omega arith))
IsCeil-small (suc (suc n)) h = absurd (omega arith)

pred_square_lt : (r : ℕ) → 0 < r → (r - 1) * (r - 1) < r * r
pred_square_lt r h = grind arith

IsCeil-exact : (n r : ℕ) → 1 < n → r * r ≡ n → IsCeil n r
IsCeil-exact n zero h e = absurd (omega arith)
IsCeil-exact n (suc r) h e =
    (omega arith, inr (omega (arith, pred_square_lt (suc r) (omega arith))))

IsCeil-above : (n r : ℕ) → IsRoot n r → r * r ≢ n → IsCeil n (r + 1)
IsCeil-above n r h ne = (omega arith, inr (rw add_sub (omega arith)))
  where
    add_sub : r + 1 - 1 ≡ r
    add_sub = omega arith

-- `isqrt_ceil(n)` is the least number whose square is at least n, for every n below 2^31.
pub isqrt_ceil-IsCeil : (n : ℕ) → n < 2 ^ 31 → IsCeil n (isqrt_ceil n)
unfolding isqrt_ceil
isqrt_ceil-IsCeil n h = elim (Bool-cases (leb n 1)) [
  | inl small ↦ rw (small, isqrt_ceil) (IsCeil-small n (leb→le n 1 small))
  | inr big ↦
      rw (big, isqrt_ceil)
        (let r = newton n (2 ^ 32) n n ((n + 1) % 2 ^ 32 / 2) in
          let lt = leb_false→lt n 1 big in
          elim (Bool-cases (r * r == n)) [
            | inl e ↦ rw e (IsCeil-exact n r lt (==→eq _ _ e))
            | inr ne ↦ rw ne (
                IsCeil-above n r (newton-IsRoot' (2 ^ 32) n (omega arith) (omega arith))
                  (==_false→ne _ _ ne))
          ])
]
