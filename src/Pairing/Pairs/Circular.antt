-- ===== src/Pairing/Pairs/Circular.antt =====
-- `canonical_to_pair_circular` of crates/match-logic/src/pairing.rs: indexes and pairs.
use prisoners_arena_program.Base.{
  ℕ, ◌+◌, ◌*◌, ◌/◌, ◌%◌, ◌^◌, ◌≤◌, ◌<◌, ◌≡◌, ◌≢◌, ◌⊎◌, sym, ◌∙◌, ap, arith, inl, inr, List, ltb,
  if◌then◌else◌, Bool-cases, ltb→lt, ltb_false→le, length, get_or, add_u32,
}
use native.Mathlib.Nat.{mod-lt}
use prisoners_arena_program.Pairing.Offsets.Laws.{
  AllBelow, Distinct, AllBelow-get_or, Distinct-get_or,
}
use prisoners_arena_program.Pairing.Pairs.{canonical_to_pair_circular}

-- The partner of player `i` at offset `d`.
partner : ℕ → ℕ → ℕ → ℕ
partner n i d = (i + d) % n

partner-lt : (n i d : ℕ) → 0 < n → partner n i d < n
unfolding partner
partner-lt n i d h = mod-lt (i + d) h

partner-ne : (n i d : ℕ) → i < n → 0 < d → d < n → partner n i d ≢ i
unfolding partner
partner-ne n i d h p q e = grind arith

partner_injective :
    (n i d d' : ℕ) → i < n → d < n → d' < n → partner n i d ≡ partner n i d' → d ≡ d'
unfolding partner
partner_injective n i d d' h p q e = grind arith

-- Going on by two offsets that do not add up to a whole turn does not lead back.
partner_back :
    (n i j d d' : ℕ)
    → i < n
    → j < n
    → 0 < d
    → 0 < d'
    → d + d' < n
    → partner n i d ≡ j
    → partner n j d' ≡ i
    → ⊥
unfolding partner
partner_back n i j d d' h k p q s e f = grind arith

div-lt : (idx m n : ℕ) → 0 < n → idx < m * n → idx / n < m
div-lt idx m n h p = grind arith

div_mod_injective : (n x y : ℕ) → 0 < n → x / n ≡ y / n → x % n ≡ y % n → x ≡ y
div_mod_injective n x y p e f = grind arith

-- The pair in order.
ordered : ℕ → ℕ → ℕ × ℕ
ordered i j = if ltb i j then (i, j) else (j, i)

ordered_lem : (n i j : ℕ) → i < n → j < n → j ≢ i → let (a, b) = ordered i j in (a < b) × (b < n)
unfolding ordered
ordered_lem n i j h k ne = elim (Bool-cases (ltb i j)) [
  | inl e ↦ rw (e, ordered) (ltb→lt i j e, k)
  | inr e ↦ rw (e, ordered) (omega (arith, ltb_false→le i j e), h)
]

ordered_injective :
    (i j i' j' : ℕ) → ordered i j ≡ ordered i' j' → ((i ≡ i') × (j ≡ j')) ⊎ ((i ≡ j') × (j ≡ i'))
unfolding ordered
ordered_injective i j i' j' e = ground arith

module _ (n : ℕ) (offsets : List ℕ) (hi : ℕ) where
  -- The offsets are distinct, at least 1, and below half of n.
  pub record IsCircle : Type 0 where
    pub size : n < 2 ^ 31
    pub half : 2 * hi ≤ n + 1
    pub within : AllBelow hi offsets
    pub distinct : Distinct offsets

  module _ (c : IsCircle) where
    offset : ℕ → ℕ
    offset idx = get_or offsets (idx / n) 0

    offset_bounds :
        (idx : ℕ) → idx < length offsets * n → (0 < n) × (1 ≤ offset idx) × (2 * offset idx < n)
    unfolding offset
    offset_bounds idx h =
        let pos : 0 < n = pos_of_lt (length offsets) n idx h in
        let (lo, up) =
          AllBelow-get_or hi offsets (idx / n) c.within (div-lt idx (length offsets) n pos h) in
        (pos, lo, omega (arith, c.half))
      where
        pos_of_lt : (m k i : ℕ) → i < m * k → 0 < k
        pos_of_lt m k i lt = grind arith

    as_partner :
        (idx : ℕ)
        → idx < length offsets * n
        → canonical_to_pair_circular idx n offsets
          ≡ ordered (idx % n) (partner n (idx % n) (offset idx))
    unfolding canonical_to_pair_circular ordered partner offset
    as_partner idx h =
        let (pos, lo, up) = offset_bounds idx h in
        let lt : idx % n < n = mod-lt idx pos in
        let e : add_u32 (idx % n) (get_or offsets (idx / n) 0)
            ≡ idx % n + get_or offsets (idx / n) 0 =
          omega (arith, c.size) in
        ap (λ t. if ltb (idx % n) (t % n) then (idx % n, t % n) else (t % n, idx % n)) e

    pub circular_lem :
        (idx : ℕ)
        → idx < length offsets * n
        → let (a, b) = canonical_to_pair_circular idx n offsets in (a < b) × (b < n)
    circular_lem idx h =
        let (pos, lo, up) = offset_bounds idx h in
        let lt = mod-lt idx pos in
        rw (as_partner idx h) (
          ordered_lem n (idx % n) (partner n (idx % n) (offset idx)) lt
            (partner-lt n (idx % n) (offset idx) pos)
            (partner-ne n (idx % n) (offset idx) lt lo (omega arith)))

    same_player :
        (x y : ℕ)
        → x < length offsets * n
        → y < length offsets * n
        → x % n ≡ y % n
        → partner n (x % n) (offset x) ≡ partner n (y % n) (offset y)
        → x ≡ y
    unfolding offset
    same_player x y hx hy i j =
        let (pos, lx, ux) = offset_bounds x hx in
        let (_, ly, uy) = offset_bounds y hy in
        let step : offset x ≡ offset y =
          partner_injective n (x % n) (offset x) (offset y) (mod-lt x pos) (omega arith)
            (omega arith) (j ∙ ap (λ t. partner n t (offset y)) (sym i)) in
        div_mod_injective n x y pos
          (Distinct-get_or offsets (x / n) (y / n) c.distinct (div-lt x (length offsets) n pos hx)
            (div-lt y (length offsets) n pos hy) step)
          i

    pub circular_injective :
        (x y : ℕ)
        → x < length offsets * n
        → y < length offsets * n
        → canonical_to_pair_circular x n offsets ≡ canonical_to_pair_circular y n offsets
        → x ≡ y
    unfolding offset
    circular_injective x y hx hy e =
        let (pos, lx, ux) = offset_bounds x hx in
        let (_, ly, uy) = offset_bounds y hy in
        elim (ordered_injective _ _ _ _ (sym (as_partner x hx) ∙ e ∙ as_partner y hy)) [
          | inl (i, j) ↦ same_player x y hx hy i j
          | inr (i, j) ↦ absurd (
              partner_back n (x % n) (y % n) (offset x) (offset y) (mod-lt x pos) (mod-lt y pos) lx
                ly (omega arith) j (sym i))
        ]
