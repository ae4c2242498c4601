-- ===== src/Arena/Winners.antt =====
-- The winners that `finalize_tournament` of programs/prisoners-arena chooses by their scores.
use prisoners_arena_program.Base.{
  ℕ, zero, suc, ◌+◌, ◌-◌, ◌≤◌, ◌<◌, ◌≡◌, refl, arith, List, [], ◌∷◌, ok, length, leb, get_or,
  Bool-cases, inl, inr, Result-cases, leb→le, leb_false→lt, ◌∙◌, sym,
}
use prisoners_arena_program.Base.Int.{ℤ}
use prisoners_arena_program.Pairing.Counts.{div_ceil}
use prisoners_arena_program.Arena.State.{Pubkey}
use prisoners_arena_program.Arena.World.{Runtime, World, take_from_tournament}
use prisoners_arena_program.Arena.Finalize.{
  active_scores, insert_desc, sort_desc, count_from, target_winners, winning_score, award,
  collect_fees, reimburse,
}
use prisoners_arena_program.Arena.Sound.{IsSound}
use prisoners_arena_program.Arena.Sound.Slots.{active}

-- No score is above `x`; and a descending list.
abbrev Below : ℕ → List ℕ → Type 0
Below x [] = Unit
Below x (y ∷ ys) = (y ≤ x) × Below x ys

abbrev IsDescending : List ℕ → Type 0
IsDescending [] = Unit
IsDescending (y ∷ ys) = Below y ys × IsDescending ys

Below-insert_desc : (b x : ℕ) (ys : List ℕ) → x ≤ b → Below b ys → Below b (insert_desc x ys)
unfolding insert_desc
Below-insert_desc b x [] h d = (h, tt)
Below-insert_desc b x (y ∷ ys) h d = elim (Bool-cases (leb y x)) [
  | inl first ↦ rw first (h, d)
  | inr later ↦ rw later (d.0, Below-insert_desc b x ys h d.1)
]

Below-weaken : (a b : ℕ) (ys : List ℕ) → a ≤ b → Below a ys → Below b ys
Below-weaken a b [] h d = tt
Below-weaken a b (y ∷ ys) h d = (omega arith, Below-weaken a b ys h d.1)

insert_desc-IsDescending : (x : ℕ) (ys : List ℕ) → IsDescending ys → IsDescending (insert_desc x ys)
unfolding insert_desc
insert_desc-IsDescending x [] d = (tt, tt)
insert_desc-IsDescending x (y ∷ ys) d = elim (Bool-cases (leb y x)) [
  | inl first ↦ (let le = leb→le y x first in rw first ((le, Below-weaken y x ys le d.0), d))
  | inr later ↦
      (let lt = leb_false→lt y x later in
        rw later (Below-insert_desc y x ys (omega arith) d.0, insert_desc-IsDescending x ys d.1))
]

sort_desc-IsDescending : (xs : List ℕ) → IsDescending (sort_desc xs)
unfolding sort_desc
sort_desc-IsDescending [] = tt
sort_desc-IsDescending (x ∷ xs) =
    insert_desc-IsDescending x (sort_desc xs) (sort_desc-IsDescending xs)

-- Sorting keeps the number of scores from any threshold on.
count_from-insert_desc :
    (t x : ℕ) (ys : List ℕ) → count_from t (insert_desc x ys) ≡ count_from t (x ∷ ys)
unfolding insert_desc count_from
count_from-insert_desc t x [] = refl
count_from-insert_desc t x (y ∷ ys) = ground (arith, count_from-insert_desc t x ys)

count_from-sort_desc : (t : ℕ) (xs : List ℕ) → count_from t (sort_desc xs) ≡ count_from t xs
unfolding sort_desc count_from
count_from-sort_desc t [] = refl
count_from-sort_desc t (x ∷ xs) =
    ground (arith, count_from-insert_desc t x (sort_desc xs), count_from-sort_desc t xs)

length-insert_desc : (x : ℕ) (ys : List ℕ) → length (insert_desc x ys) ≡ suc (length ys)
unfolding insert_desc
length-insert_desc x [] = refl
length-insert_desc x (y ∷ ys) = ground (arith, length-insert_desc x ys)

length-sort_desc : (xs : List ℕ) → length (sort_desc xs) ≡ length xs
unfolding sort_desc
length-sort_desc [] = refl
length-sort_desc (x ∷ xs) = omega (arith, length-insert_desc x (sort_desc xs), length-sort_desc xs)

-- The score at place k of a descending list: more than k scores reach it, at most k exceed it.
Below-get_or : (b k : ℕ) (ys : List ℕ) → Below b ys → k < length ys → get_or ys k 0 ≤ b
Below-get_or b k [] d h = absurd (omega arith)
Below-get_or b zero (y ∷ ys) d h = d.0
Below-get_or b (suc k) (y ∷ ys) d h = Below-get_or b k ys d.1 (omega arith)

count_from-above : (b t : ℕ) (ys : List ℕ) → Below b ys → b < t → count_from t ys ≡ 0
unfolding count_from
count_from-above b t [] d h = refl
count_from-above b t (y ∷ ys) d h = ground (arith, d.0, count_from-above b t ys d.1 h)

count_from-place :
    (k : ℕ) (ys : List ℕ)
    → IsDescending ys
    → k < length ys
    → (k < count_from (get_or ys k 0) ys) × (count_from (get_or ys k 0 + 1) ys ≤ k)
unfolding count_from
count_from-place k [] d h = absurd (omega arith)
count_from-place zero (y ∷ ys) d h =
    (ground arith, ground (arith, count_from-above y (y + 1) ys d.0 (omega arith)))
count_from-place (suc k) (y ∷ ys) d h =
    let (many, few) = count_from-place k ys d.1 (omega arith) in
    let top = Below-get_or y k ys d.0 (omega arith) in (ground arith, ground arith)

target_winners-le : (n : ℕ) → 1 ≤ n → (1 ≤ target_winners n) × (target_winners n ≤ n)
unfolding target_winners
target_winners-le n h = (omega arith, omega arith)

-- With n ≥ 1 scores, at least `target_winners n` of them reach the winning score, and fewer exceed
-- it.
pub winning_score-place :
    (scores : List ℕ)
    → 1 ≤ length scores
    → (target_winners (length scores) ≤ count_from (winning_score (length scores) scores) scores)
      × (count_from (winning_score (length scores) scores + 1) scores
          < target_winners (length scores))
unfolding winning_score
winning_score-place scores h =
    let k = target_winners (length scores) - 1 in
    let (low, high) = target_winners-le (length scores) h in
    let sorted = length-sort_desc scores in
    let (many, few) =
      count_from-place k (sort_desc scores) (sort_desc-IsDescending scores) (omega arith) in
    let top = get_or (sort_desc scores) k 0 in
    (
      omega (arith, count_from-sort_desc top scores),
      omega (arith, count_from-sort_desc (top + 1) scores),
    )

pub length-active_scores :
    (ks : List Pubkey) (ss scores : List ℕ)
    → length ss ≡ length ks
    → active_scores ks ss ≡ ok scores
    → length scores ≡ active ks
unfolding active_scores
length-active_scores [] [] scores l h = grind arith
length-active_scores [] (s ∷ ss) scores l h = absurd (omega arith)
length-active_scores (k ∷ ks) [] scores l h = absurd (omega arith)
length-active_scores (k ∷ ks) (s ∷ ss) scores l h = elim (Result-cases (active_scores ks ss)) [
  | inr e ↦ absurd (grind arith)
  | inl (rest, e) ↦ grind (arith, length-active_scores ks ss rest (omega arith) e)
]

pub award-ok :
    (rt : Runtime) (operator : Pubkey) (now : ℤ) (w w' : World)
    → award rt operator now w ≡ ok w'
    → (scores : List ℕ) × (active_scores w.tournament.players w.tournament.scores ≡ ok scores)
      × (w'.tournament.min_winning_score ≡ winning_score w.tournament.participant_count scores)
      × (w'.tournament.winner_count ≡ count_from w'.tournament.min_winning_score scores)
unfolding award collect_fees reimburse take_from_tournament
award-ok rt operator now w w' h =
    elim (Result-cases (active_scores w.tournament.players w.tournament.scores)) [
      | inr e ↦ absurd (grind arith)
      | inl (scores, e) ↦ (scores, e, grind arith, grind arith)
    ]

-- The winners of a well-formed tournament with players: everyone whose score reaches the winning
-- score, at least a quarter of the players rounded up, and fewer than that exceed the winning score.
pub winner_count-award :
    (rt : Runtime) (operator : Pubkey) (now : ℤ) (w w' : World)
    → IsSound w.tournament w.entries
    → 1 ≤ w.tournament.participant_count
    → award rt operator now w ≡ ok w'
    → (scores : List ℕ) × (active_scores w.tournament.players w.tournament.scores ≡ ok scores)
      × (length scores ≡ w.tournament.participant_count)
      × (w'.tournament.winner_count ≡ count_from w'.tournament.min_winning_score scores)
      × (div_ceil w.tournament.participant_count 4 ≤ w'.tournament.winner_count)
      × (count_from (w'.tournament.min_winning_score + 1) scores
          < div_ceil w.tournament.participant_count 4)
unfolding target_winners
winner_count-award rt operator now w w' s several h =
    let (scores, e, em, ec) = award-ok rt operator now w w' h in
    let n : length scores ≡ w.tournament.participant_count =
      length-active_scores w.tournament.players w.tournament.scores scores s.scores e
      ∙ sym s.counted in
    let (many, few) = winning_score-place scores (omega arith) in
    (scores, e, n, ec, rw (ec, em, ← n) (omega arith), rw (em, ← n) (omega arith))
