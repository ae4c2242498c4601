-- ===== src/Pairing/Offsets/Laws.antt =====
-- Floyd's sampling in crates/match-logic/src/pairing.rs: the offsets that are drawn.
use prisoners_arena_program.Base.{
  ℕ, zero, suc, ◌+◌, ◌-◌, ◌≤◌, ◌<◌, ◌≡◌, refl, ◌∙◌, ap, arith, inl, inr, Bool, true, false, ◌||◌,
  List, [], ◌∷◌, ◌++◌, ◌==◌, if◌then◌else◌, Bool-cases, length, length-append, get_or,
}
use prisoners_arena_program.Random.{SeededRng, new_rng, next_range, next_range-lt}
use prisoners_arena_program.Pairing.Counts.{available}
use prisoners_arena_program.Pairing.Offsets.{
  contains, sample, insert, sort, offset_count, select_offsets,
}

-- Every entry is at least 1 and below `hi`.
abbrev pub AllBelow : ℕ → List ℕ → Type 0
AllBelow hi [] = Unit
AllBelow hi (x ∷ xs) = (1 ≤ x) × (x < hi) × AllBelow hi xs

abbrev pub Distinct : List ℕ → Type 0
Distinct [] = Unit
Distinct (x ∷ xs) = (contains x xs ≡ false) × Distinct xs

AllBelow-weaken : (lo hi : ℕ) (xs : List ℕ) → lo ≤ hi → AllBelow lo xs → AllBelow hi xs
AllBelow-weaken lo hi [] h a = tt
AllBelow-weaken lo hi (x ∷ xs) h a = (a.0, omega arith, AllBelow-weaken lo hi xs h a.2)

AllBelow-snoc :
    (hi v : ℕ) (xs : List ℕ) → AllBelow hi xs → 1 ≤ v → v < hi → AllBelow hi (xs ++ v ∷ [])
AllBelow-snoc hi v [] a p q = (p, q, tt)
AllBelow-snoc hi v (x ∷ xs) a p q = (a.0, a.1, AllBelow-snoc hi v xs a.2 p q)

contains_above : (hi : ℕ) (xs : List ℕ) → AllBelow hi xs → contains hi xs ≡ false
unfolding contains
contains_above hi [] a = refl
contains_above hi (x ∷ xs) a = ground (arith, contains_above hi xs a.2)

contains-snoc :
    (t v : ℕ) (xs : List ℕ)
    → contains t xs ≡ false
    → (v == t) ≡ false
    → contains t (xs ++ v ∷ []) ≡ false
unfolding contains
contains-snoc t v [] h e = ground arith
contains-snoc t v (x ∷ xs) h e = ground (arith, contains-snoc t v xs)

Distinct-snoc :
    (v : ℕ) (xs : List ℕ) → Distinct xs → contains v xs ≡ false → Distinct (xs ++ v ∷ [])
unfolding contains
Distinct-snoc v [] d h = (refl, tt)
Distinct-snoc v (x ∷ xs) d h =
    (contains-snoc x v xs d.0 (ground arith), Distinct-snoc v xs d.1 (ground arith))

-- One round of the sampling takes a value up to `j` that is not there yet.
pick_new :
    (j t : ℕ) (xs : List ℕ) → AllBelow j xs → contains (if contains t xs then j else t) xs ≡ false
pick_new j t xs a = elim (Bool-cases (contains t xs)) [
  | inl found ↦ rw found (contains_above j xs a)
  | inr fresh ↦ rw (fresh, fresh)
]

pick_bounds :
    (j t : ℕ) (b : Bool)
    → 1 ≤ j
    → 1 ≤ t
    → t ≤ j
    → (1 ≤ (if b then j else t)) × ((if b then j else t) < j + 1)
pick_bounds j t b p q h = ground arith

sample_lem :
    (left j : ℕ) (rng : SeededRng) (xs : List ℕ)
    → 1 ≤ j
    → AllBelow j xs
    → Distinct xs
    → AllBelow (j + left) (sample left j rng xs)
      × Distinct (sample left j rng xs)
      × (length (sample left j rng xs) ≡ length xs + left)
unfolding sample
sample_lem zero j rng xs p a d = (AllBelow-weaken j (j + 0) xs (omega arith) a, d, omega arith)
sample_lem (suc left) j rng xs p a d =
    let t = (next_range rng j).0 + 1 in
    let v = if contains t xs then j else t in
    let (lo, hi) =
      pick_bounds j t (contains t xs) p (omega arith) (omega (arith, next_range-lt rng j p)) in
    let (a', d', l) =
      sample_lem left (j + 1) (next_range rng j).1 (xs ++ v ∷ []) (omega arith)
        (AllBelow-snoc (j + 1) v xs (AllBelow-weaken j (j + 1) xs (omega arith) a) lo hi)
        (Distinct-snoc v xs d (pick_new j t xs a)) in
    (
      AllBelow-weaken (j + 1 + left) (j + suc left) _ (omega arith) a',
      d',
      omega (arith, l, length-append xs (v ∷ [])),
    )

AllBelow-insert :
    (hi a : ℕ) (xs : List ℕ) → AllBelow hi xs → 1 ≤ a → a < hi → AllBelow hi (insert a xs)
unfolding insert
AllBelow-insert hi a [] h p q = (p, q, tt)
AllBelow-insert hi a (x ∷ xs) h p q = ground (arith, AllBelow-insert hi a xs h.2 p q)

contains-insert : (t a : ℕ) (xs : List ℕ) → contains t (insert a xs) ≡ (a == t || contains t xs)
unfolding insert contains
contains-insert t a [] = refl
contains-insert t a (x ∷ xs) = ground (arith, contains-insert t a xs)

Distinct-insert :
    (a : ℕ) (xs : List ℕ) → Distinct xs → contains a xs ≡ false → Distinct (insert a xs)
unfolding insert contains
Distinct-insert a [] d h = (refl, tt)
Distinct-insert a (x ∷ xs) d h = ground (arith, Distinct-insert a xs d.1, contains-insert x a xs)

length-insert : (a : ℕ) (xs : List ℕ) → length (insert a xs) ≡ length xs + 1
unfolding insert
length-insert a [] = omega arith
length-insert a (x ∷ xs) = ground (arith, length-insert a xs)

contains-sort : (t : ℕ) (xs : List ℕ) → contains t (sort xs) ≡ contains t xs
unfolding contains sort
contains-sort t [] = refl
contains-sort t (x ∷ xs) =
    contains-insert t x (sort xs) ∙ ap (λ b. x == t || b) (contains-sort t xs)

sort_lem :
    (hi : ℕ) (xs : List ℕ)
    → AllBelow hi xs
    → Distinct xs
    → AllBelow hi (sort xs) × Distinct (sort xs) × (length (sort xs) ≡ length xs)
unfolding sort
sort_lem hi [] a d = (tt, tt, refl)
sort_lem hi (x ∷ xs) a d =
    let (a', d', l) = sort_lem hi xs a.2 d.1 in
    (
      AllBelow-insert hi x (sort xs) a' a.0 a.1,
      Distinct-insert x (sort xs) d' (contains-sort x xs ∙ d.0),
      omega (arith, l, length-insert x (sort xs)),
    )

offset_count_le : (n k : ℕ) → offset_count n k ≤ available n
unfolding offset_count
offset_count_le n k = omega arith

-- The offsets that are selected: as many as `offset_count` says, distinct, and from 1 to `available`.
pub select_offsets_lem :
    (n k : ℕ) (seed : List ℕ)
    → AllBelow (available n + 1) (select_offsets n k seed)
      × Distinct (select_offsets n k seed)
      × (length (select_offsets n k seed) ≡ offset_count n k)
unfolding select_offsets
select_offsets_lem n k seed =
    let m = offset_count n k in
    let few = offset_count_le n k in
    let first = available n - m + 1 in
    let (a, d, l) = sample_lem m first (new_rng seed 0) [] (omega arith) tt tt in
    let (a', d', l') =
      sort_lem (available n + 1) (sample m first (new_rng seed 0) [])
        (AllBelow-weaken (first + m) (available n + 1) _ (omega arith) a) d in
    (a', d', omega (arith, l, l'))

-- Reading the list by an index in range.
pub AllBelow-get_or :
    (hi : ℕ) (xs : List ℕ) (i : ℕ)
    → AllBelow hi xs
    → i < length xs
    → (1 ≤ get_or xs i 0) × (get_or xs i 0 < hi)
AllBelow-get_or hi [] i a h = elim h [ ]
AllBelow-get_or hi (x ∷ xs) zero a h = (a.0, a.1)
AllBelow-get_or hi (x ∷ xs) (suc i) a h = AllBelow-get_or hi xs i a.2 (omega arith)

contains-get_or : (xs : List ℕ) (i : ℕ) → i < length xs → contains (get_or xs i 0) xs ≡ true
unfolding contains
contains-get_or [] i h = elim h [ ]
contains-get_or (x ∷ xs) zero h = ground arith
contains-get_or (x ∷ xs) (suc i) h = ground (arith, contains-get_or xs i (omega arith))

pub Distinct-get_or :
    (xs : List ℕ) (i j : ℕ)
    → Distinct xs
    → i < length xs
    → j < length xs
    → get_or xs i 0 ≡ get_or xs j 0
    → i ≡ j
Distinct-get_or [] i j d h k e = elim h [ ]
Distinct-get_or (x ∷ xs) zero zero d h k e = refl
Distinct-get_or (x ∷ xs) zero (suc j) d h k e = ground (arith, contains-get_or xs j (omega arith))
Distinct-get_or (x ∷ xs) (suc i) zero d h k e = ground (arith, contains-get_or xs i (omega arith))
Distinct-get_or (x ∷ xs) (suc i) (suc j) d h k e =
    ap suc (Distinct-get_or xs i j d.1 (omega arith) (omega arith) e)
