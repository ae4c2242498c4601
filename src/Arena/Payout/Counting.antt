-- ===== src/Arena/Payout/Counting.antt =====
-- The winners of programs/prisoners-arena, counted by their entries.
use prisoners_arena_program.Base.{
  ℕ, zero, suc, ◌+◌, ◌≤◌, ◌<◌, ◌≡◌, arith, some, List, [], ◌∷◌, ok, length, get_elem?, set, leb,
  ◌==◌, if◌then◌else◌, Bool-cases, inl, inr, Result-cases, ap, sym, ◌∙◌,
}
use prisoners_arena_program.Arena.State.{Pubkey}
use prisoners_arena_program.Arena.World.{EntryAccount, find_entry, remove_entry}
use prisoners_arena_program.Arena.Finalize.{active_scores, count_from}
use prisoners_arena_program.Arena.Sound.Slots.{active, active-set}
use prisoners_arena_program.Arena.Sound.Seats.{Seated, Seated-set_other}
use prisoners_arena_program.Arena.Sync.Entries.{AllTell}

-- One score counts if it reaches the threshold.
abbrev pub hit : ℕ → ℕ → ℕ
hit threshold s = if leb threshold s then 1 else 0

-- The entries whose scores reach the threshold.
abbrev pub qualified : ℕ → List EntryAccount → ℕ
qualified threshold [] = 0
qualified threshold (a ∷ as') = hit threshold a.entry.score + qualified threshold as'

-- The slots of active players whose scores reach it.
abbrev reaching : ℕ → List Pubkey → List ℕ → ℕ
reaching threshold [] ss = 0
reaching threshold (k ∷ ks) [] = 0
reaching threshold (k ∷ ks) (s ∷ ss) =
    (if k == 0 then 0 else hit threshold s) + reaching threshold ks ss

count_from-active_scores :
    (threshold : ℕ) (ks : List Pubkey) (ss scores : List ℕ)
    → length ss ≡ length ks
    → active_scores ks ss ≡ ok scores
    → count_from threshold scores ≡ reaching threshold ks ss
unfolding active_scores count_from
count_from-active_scores threshold [] [] scores l h = grind arith
count_from-active_scores threshold [] (s ∷ ss) scores l h = absurd (omega arith)
count_from-active_scores threshold (k ∷ ks) [] scores l h = absurd (omega arith)
count_from-active_scores threshold (k ∷ ks) (s ∷ ss) scores l h =
    elim (Result-cases (active_scores ks ss)) [
      | inr e ↦ absurd (grind arith)
      | inl (rest, e) ↦ grind (arith, count_from-active_scores threshold ks ss rest (omega arith) e)
    ]

reaching-vacate :
    (threshold : ℕ) (ks : List Pubkey) (ss : List ℕ) (i : ℕ) {k s : ℕ}
    → get_elem? ks i ≡ some k
    → 0 < k
    → get_elem? ss i ≡ some s
    → reaching threshold (set ks i 0) ss + hit threshold s ≡ reaching threshold ks ss
reaching-vacate threshold [] ss i e p f = cc
reaching-vacate threshold (j ∷ ks) [] i e p f = cc
reaching-vacate threshold (j ∷ ks) (t ∷ ss) zero e p f = grind arith
reaching-vacate threshold (j ∷ ks) (t ∷ ss) (suc i) e p f =
    omega (arith, reaching-vacate threshold ks ss i e p f)

reaching-le-active :
    (threshold : ℕ) (ks : List Pubkey) (ss : List ℕ) → reaching threshold ks ss ≤ active ks
reaching-le-active threshold [] ss = omega arith
reaching-le-active threshold (k ∷ ks) [] = omega arith
reaching-le-active threshold (k ∷ ks) (s ∷ ss) = ground (arith, reaching-le-active threshold ks ss)

-- Where every active player has an entry with the score of its slot, the two counts agree.
qualified-eq-reaching :
    (threshold : ℕ) (ks : List Pubkey) (ss scores : List ℕ) (as' : List EntryAccount)
    → Seated ks ss as'
    → AllTell scores as'
    → length as' ≡ active ks
    → qualified threshold as' ≡ reaching threshold ks scores
qualified-eq-reaching threshold ks ss scores [] s t n =
    omega (arith, n, reaching-le-active threshold ks scores)
qualified-eq-reaching threshold ks ss scores (a ∷ as') (h, d, r) (t, ts) n =
    let i = a.entry.index in
    omega (
      arith,
      n,
      reaching-vacate threshold ks scores i h.seat h.keyed t,
      active-set ks i h.seat h.keyed,
      qualified-eq-reaching threshold (set ks i 0) (set ss i 255) scores as'
          (Seated-set_other ks ss i 0 255 as' h.seat d r) ts
          (omega (arith, n, active-set ks i h.seat h.keyed)),
    )

pub qualified-count_from :
    (threshold : ℕ) (ks : List Pubkey) (ss scores taken : List ℕ) (as' : List EntryAccount)
    → length scores ≡ length ks
    → Seated ks ss as'
    → AllTell scores as'
    → length as' ≡ active ks
    → active_scores ks scores ≡ ok taken
    → qualified threshold as' ≡ count_from threshold taken
qualified-count_from threshold ks ss scores taken as' l s t n h =
    qualified-eq-reaching threshold ks ss scores as' s t n
    ∙ sym (count_from-active_scores threshold ks scores taken l h)

-- An entry is closed.
pub qualified-remove :
    (threshold : ℕ) (player : Pubkey) (as' : List EntryAccount) {a : EntryAccount}
    → find_entry player as' ≡ some a
    → qualified threshold (remove_entry player as') + hit threshold a.entry.score
      ≡ qualified threshold as'
unfolding find_entry remove_entry
qualified-remove threshold player [] e = cc
qualified-remove threshold player (x ∷ as') {a} e = elim (Bool-cases (x.entry.player == player)) [
  | inl same ↦
      (let eq : x ≡ a = grind arith in
        rw same (omega (arith, ap (λ y. hit threshold y.entry.score) eq)))
  | inr other ↦
      rw other (omega (arith, qualified-remove threshold player as' {a = a} (rw other at e)))
]
