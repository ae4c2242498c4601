-- ===== src/Pairing/All.antt =====
-- crates/match-logic/src/pairing.rs: `generate_all_pairings` against `get_pairing_for_match`.
use prisoners_arena_program.Base.{
  ℕ, zero, suc, ◌+◌, ◌≤◌, ◌<◌, ◌≡◌, refl, arith, true, false, none, some, List, [], ◌∷◌, length,
  get_elem?, ltb, leb, ◌==◌, Bool-cases, inl, inr, ==→eq, sym, ◌∙◌, ap,
}
use prisoners_arena_program.Pairing.{
  get_pairing_for_match, pairing_at, pairings_from, generate_all_pairings, calculate_match_count,
}
use prisoners_arena_program.Pairing.Counts.{effective_k, calculate_match_count_inner}
use prisoners_arena_program.Pairing.Schedule.{get_pairing_for_match_total}

get_elem?-outside {ℓ} : {A : Type ℓ} (xs : List A) (i : ℕ) → length xs ≤ i → get_elem? xs i ≡ none
get_elem?-outside [] i h = refl
get_elem?-outside (x ∷ xs) zero h = absurd (omega arith)
get_elem?-outside (x ∷ xs) (suc i) h = get_elem?-outside xs i (omega arith)

-- Every index of a range has a pair.
abbrev Paired : ℕ → ℕ → List ℕ → ℕ → ℕ → ℕ → Type 0
Paired n k seed total index left =
    (i : ℕ) → index ≤ i → i < index + left → (p : ℕ × ℕ) × (pairing_at n k seed total i ≡ some p)

pairings_from-step :
    (left n k : ℕ) (seed : List ℕ) (total index : ℕ) {p : ℕ × ℕ}
    → pairing_at n k seed total index ≡ some p
    → pairings_from (suc left) n k seed total index
      ≡ p ∷ pairings_from left n k seed total (index + 1)
unfolding pairings_from
pairings_from-step left n k seed total index e = rw (pairings_from, e) refl

length-pairings_from :
    (left n k : ℕ) (seed : List ℕ) (total index : ℕ)
    → Paired n k seed total index left
    → length (pairings_from left n k seed total index) ≡ left
unfolding pairings_from
length-pairings_from zero n k seed total index all = refl
length-pairings_from (suc left) n k seed total index all =
    let (p, e) = all index (omega arith) (omega arith) in
    let rest =
      length-pairings_from left n k seed total (index + 1)
        (λ i lo hi. all i (omega arith) (omega arith)) in
    rw (pairings_from-step left n k seed total index e) (omega (arith, rest))

get_elem?-pairings_from :
    (left n k : ℕ) (seed : List ℕ) (total index j : ℕ)
    → Paired n k seed total index left
    → j < left
    → get_elem? (pairings_from left n k seed total index) j ≡ pairing_at n k seed total (index + j)
get_elem?-pairings_from zero n k seed total index j all h = absurd (omega arith)
get_elem?-pairings_from (suc left) n k seed total index zero all h =
    let (p, e) = all index (omega arith) (omega arith) in
    let at : index + 0 ≡ index = omega arith in
    rw (at, pairings_from-step left n k seed total index e) (sym e)
get_elem?-pairings_from (suc left) n k seed total index (suc j) all h =
    let (p, e) = all index (omega arith) (omega arith) in
    let at : index + suc j ≡ index + 1 + j = omega arith in
    rw (at, pairings_from-step left n k seed total index e)
      (get_elem?-pairings_from left n k seed total (index + 1) j
        (λ i lo hi. all i (omega arith) (omega arith)) (omega arith))

pairing_at-inside :
    (n k : ℕ) (seed : List ℕ) (i : ℕ)
    → i < calculate_match_count_inner n k
    → get_pairing_for_match n k seed i ≡ pairing_at n k seed (calculate_match_count_inner n k) i
unfolding get_pairing_for_match
pairing_at-inside n k seed i h =
    let inside : leb (calculate_match_count_inner n k) i ≡ false = ground arith in rw inside refl

pub get_pairing_for_match-outside :
    (n k : ℕ) (seed : List ℕ) (i : ℕ)
    → calculate_match_count_inner n k ≤ i
    → get_pairing_for_match n k seed i ≡ none
unfolding get_pairing_for_match
get_pairing_for_match-outside n k seed i h =
    let outside : leb (calculate_match_count_inner n k) i ≡ true = ground arith in rw outside refl

generate_all_pairings-range :
    (n k : ℕ) (seed : List ℕ)
    → 2 ≤ n
    → generate_all_pairings n k seed
      ≡ pairings_from (calculate_match_count_inner n k) n k seed (calculate_match_count_inner n k) 0
unfolding generate_all_pairings pairings_from
generate_all_pairings-range n k seed several =
    let many : ltb n 2 ≡ false = ground arith in
    elim (Bool-cases (calculate_match_count_inner n k == 0)) [
      | inl none_there ↦
          (let zero_there : calculate_match_count_inner n k ≡ 0 = ==→eq _ _ none_there in
            rw (many, zero_there) refl)
      | inr some_there ↦ rw (many, some_there) refl
    ]

-- With 2 to 5000 players, and the number of matches per player that `effective_k` makes of any
-- setting: the list of all the pairings is as long as the match count, and at each index it has what
-- `get_pairing_for_match` finds there, nothing past the end included.
pub generate_all_pairings_lem :
    (n config_k : ℕ) (seed : List ℕ)
    → 2 ≤ n
    → n ≤ 5000
    → (length (generate_all_pairings n (effective_k n config_k) seed)
        ≡ calculate_match_count n (effective_k n config_k) seed)
      × ((i : ℕ)
          → get_elem? (generate_all_pairings n (effective_k n config_k) seed) i
            ≡ get_pairing_for_match n (effective_k n config_k) seed i)
unfolding calculate_match_count
generate_all_pairings_lem n config_k seed several allowed =
    let k = effective_k n config_k in
    let total = calculate_match_count_inner n k in
    let all : Paired n k seed total 0 total = λ i lo hi.
      let inside : i < total = omega (arith, hi) in
      let (a, b, e, _, _) = get_pairing_for_match_total n config_k seed i several allowed inside in
      ((a, b), sym (pairing_at-inside n k seed i inside) ∙ e) in
    let count = length-pairings_from total n k seed total 0 all in
    let full = generate_all_pairings-range n k seed several in
    (
      ap length full ∙ count,
      λ i. ap (λ ps. get_elem? ps i) full ∙ elim (Bool-cases (ltb i total)) [
        | inl inside ↦
            get_elem?-pairings_from total n k seed total 0 i all (ground arith)
            ∙ ap (pairing_at n k seed total) (omega arith)
            ∙ sym (pairing_at-inside n k seed i (ground arith))
        | inr outside ↦
            get_elem?-outside (pairings_from total n k seed total 0) i (ground (arith, count))
            ∙ sym (get_pairing_for_match-outside n k seed i (ground arith))
      ],
    )
