-- ===== src/Bindings/Pairings.antt =====
-- crates/match-logic/src/wasm.rs: the pairings that are shown, without the refunded players.
use prisoners_arena_program.Base.{
  ℕ, zero, suc, ◌≤◌, ◌≡◌, ◌≢◌, ◌↔◌, refl, arith, true, false, ◌&&◌, some, List, [], ◌∷◌, ok, length,
  get_elem?, ◌==◌, Bool-cases, Option-cases, inl, inr, sym, ap, ◌∙◌,
}
use mathlib.Core.Path.{subst}
use mathlib.Core.Option.{some-injective}
use prisoners_arena_program.Pairing.{get_pairing_for_match, generate_all_pairings}
use prisoners_arena_program.Pairing.Counts.{effective_k}
use prisoners_arena_program.Pairing.All.{generate_all_pairings_lem}
use prisoners_arena_program.Bindings.{
  is_playing, playing_pairs, seed_array, get_tournament_pairings_filtered,
}

-- A pair stands in a list.
abbrev pub Listed : ℕ × ℕ → List (ℕ × ℕ) → Type 0
Listed p pairs = (i : ℕ) × (get_elem? pairs i ≡ some p)

playing_pairs-keeps :
    (ss : List ℕ) (a b : ℕ) (pairs : List (ℕ × ℕ))
    → (is_playing ss a && is_playing ss b) ≡ true
    → playing_pairs ss ((a, b) ∷ pairs) ≡ (a, b) ∷ playing_pairs ss pairs
unfolding playing_pairs
playing_pairs-keeps ss a b pairs h = rw h refl

playing_pairs-drops :
    (ss : List ℕ) (a b : ℕ) (pairs : List (ℕ × ℕ))
    → (is_playing ss a && is_playing ss b) ≡ false
    → playing_pairs ss ((a, b) ∷ pairs) ≡ playing_pairs ss pairs
unfolding playing_pairs
playing_pairs-drops ss a b pairs h = rw h refl

-- A pair that stands in the list that is kept stands in the whole one, and both of it play.
Kept : List ℕ → List (ℕ × ℕ) → ℕ × ℕ → Type 0
Kept ss pairs p = Listed p pairs × (is_playing ss (p.0) ≡ true) × (is_playing ss (p.1) ≡ true)

Kept-later :
    (ss : List ℕ) (pairs : List (ℕ × ℕ)) (q p : ℕ × ℕ) → Kept ss pairs p → Kept ss (q ∷ pairs) p
unfolding Kept
Kept-later ss pairs q p ((i, e), a, b) = ((suc i, e), a, b)

Kept-here :
    (ss : List ℕ) (pairs : List (ℕ × ℕ)) (x y : ℕ)
    → (is_playing ss x && is_playing ss y) ≡ true
    → Kept ss ((x, y) ∷ pairs) (x, y)
unfolding Kept
Kept-here ss pairs x y both = ((0, refl), ground arith, ground arith)

-- A list that begins with a pair that is kept, and goes on with pairs that are.
Kept-cons :
    (ss : List ℕ) (x y : ℕ) (pairs kept : List (ℕ × ℕ)) (p : ℕ × ℕ) (i : ℕ)
    → (is_playing ss x && is_playing ss y) ≡ true
    → ((j : ℕ) → get_elem? kept j ≡ some p → Kept ss pairs p)
    → get_elem? ((x, y) ∷ kept) i ≡ some p
    → Kept ss ((x, y) ∷ pairs) p
Kept-cons ss x y pairs kept p zero both later e =
    subst (Kept ss ((x, y) ∷ pairs)) (some-injective _ _ e) (Kept-here ss pairs x y both)
Kept-cons ss x y pairs kept p (suc i) both later e = Kept-later ss pairs (x, y) p (later i e)

playing_pairs-Kept :
    (ss : List ℕ) (pairs : List (ℕ × ℕ)) (p : ℕ × ℕ) (i : ℕ)
    → get_elem? (playing_pairs ss pairs) i ≡ some p
    → Kept ss pairs p
unfolding playing_pairs
playing_pairs-Kept ss [] p i e = cc
playing_pairs-Kept ss ((x, y) ∷ pairs) p i e =
    elim (Bool-cases (is_playing ss x && is_playing ss y)) [
      | inr out ↦
          Kept-later ss pairs (x, y) p
            (playing_pairs-Kept ss pairs p i (rw (playing_pairs-drops ss x y pairs out) at e))
      | inl both ↦
          Kept-cons ss x y pairs (playing_pairs ss pairs) p i both (playing_pairs-Kept ss pairs p)
            (rw (playing_pairs-keeps ss x y pairs both) at e)
    ]

Kept-Listed :
    (ss : List ℕ) (pairs : List (ℕ × ℕ)) (a b i : ℕ)
    → get_elem? pairs i ≡ some (a, b)
    → (is_playing ss a && is_playing ss b) ≡ true
    → Listed (a, b) (playing_pairs ss pairs)
unfolding playing_pairs
Kept-Listed ss [] a b i e both = cc
Kept-Listed ss ((x, y) ∷ pairs) a b zero e both =
    let same : (x, y) ≡ (a, b) = some-injective _ _ e in
    let eq : (is_playing ss x && is_playing ss y) ≡ true =
      ap (λ q. is_playing ss q.0 && is_playing ss q.1) same ∙ both in
    rw (playing_pairs-keeps ss x y pairs eq) (0, e)
Kept-Listed ss ((x, y) ∷ pairs) a b (suc i) e both =
    let (j, f) = Kept-Listed ss pairs a b i e both in
    elim (Bool-cases (is_playing ss x && is_playing ss y)) [
      | inl yes_there ↦ rw (playing_pairs-keeps ss x y pairs yes_there) (suc j, f)
      | inr out ↦ rw (playing_pairs-drops ss x y pairs out) (j, f)
    ]

-- A player has a strategy, and it is not the mark 255 of a refund.
abbrev pub IsUnrefunded : List ℕ → ℕ → Type 0
IsUnrefunded strategies a = (s : ℕ) × (get_elem? strategies a ≡ some s) × (s ≢ 255)

is_playing-IsUnrefunded :
    (strategies : List ℕ) (a : ℕ) → is_playing strategies a ≡ true → IsUnrefunded strategies a
unfolding is_playing
is_playing-IsUnrefunded strategies a h = elim (Option-cases (get_elem? strategies a)) [
  | inl e ↦ absurd (grind arith)
  | inr (s, e) ↦ (s, e, λ q. absurd (grind arith))
]

IsUnrefunded-is_playing :
    (strategies : List ℕ) (a : ℕ) → IsUnrefunded strategies a → is_playing strategies a ≡ true
unfolding is_playing
IsUnrefunded-is_playing strategies a (s, e, ne) = rw (is_playing, e) (ground arith)

-- With 2 to 5000 players, any setting of matches per player and a seed of 32 bytes: the filtered
-- pairings are those of the matches of the schedule in which both players have a strategy other than
-- 255, the mark of a refund.
pub get_tournament_pairings_filtered_iff :
    (n config_k : ℕ) (seed strategies : List ℕ)
    → 2 ≤ n
    → n ≤ 5000
    → length seed ≡ 32
    → (pairs : List (ℕ × ℕ)) × (get_tournament_pairings_filtered n
          (effective_k n config_k)
          seed
          strategies
        ≡ ok pairs)
      × ((a b : ℕ)
          → Listed (a, b) pairs ↔ (
              ((i : ℕ) × (get_pairing_for_match n (effective_k n config_k) seed i ≡ some (a, b)))
              × IsUnrefunded strategies a
              × IsUnrefunded strategies b))
unfolding get_tournament_pairings_filtered seed_array Kept
get_tournament_pairings_filtered_iff n config_k seed strategies several allowed l =
    let k = effective_k n config_k in
    let all = generate_all_pairings n k seed in
    let (_, same) = generate_all_pairings_lem n config_k seed several allowed in
    let right_size : (length seed == 32) ≡ true = ground (arith, l) in
    (
      playing_pairs strategies all,
      rw right_size refl,
      λ a b. (
        λ (i, e).
            let ((j, f), ha, hb) = playing_pairs-Kept strategies all (a, b) i e in
            (
              (j, sym (same j) ∙ f),
              is_playing-IsUnrefunded strategies a ha,
              is_playing-IsUnrefunded strategies b hb,
            ),
        λ ((i, e), ha, hb). Kept-Listed strategies all a b i (same i ∙ e) (
            rw (IsUnrefunded-is_playing strategies a ha, IsUnrefunded-is_playing strategies b hb)
              refl),
      ),
    )
