-- ===== src/Arena/Store/Slots.antt =====
-- The tournaments of programs/prisoners-arena by their ids.
use prisoners_arena_program.Base.{
  ℕ, ◌+◌, ◌≡◌, ◌≢◌, refl, arith, true, false, some, List, [], ◌∷◌, Bool-cases, inl, inr, ==→eq, sym,
  ◌∙◌, ap,
}
use prisoners_arena_program.Arena.World.{entry_lamports}
use prisoners_arena_program.Arena.Store.{
  Stored, is_at, find_tournament, write_tournament, stored_lamports,
}

-- The tournament that is found is at its id.
pub find_tournament-id :
    (id : ℕ) (ss : List Stored) {s : Stored} → find_tournament id ss ≡ some s → s.tournament.id ≡ id
unfolding find_tournament
find_tournament-id id [] e = cc
find_tournament-id id (x ∷ ss) {s} e = elim (Bool-cases (is_at id x)) [
  | inl here ↦
      (let same : x ≡ s = grind arith in
        ap (λ y. y.tournament.id) (sym same) ∙ ==→eq _ _ (grind arith))
  | inr there ↦ find_tournament-id id ss {s = s} (rw there at e)
]

pub stored_lamports-write :
    (id : ℕ) (s' : Stored) (ss : List Stored) {s : Stored}
    → find_tournament id ss ≡ some s
    → stored_lamports (write_tournament id s' ss) + (s.lamports + entry_lamports s.entries)
      ≡ stored_lamports ss + (s'.lamports + entry_lamports s'.entries)
unfolding find_tournament write_tournament
stored_lamports-write id s' [] e = cc
stored_lamports-write id s' (x ∷ ss) {s} e = elim (Bool-cases (is_at id x)) [
  | inl here ↦ (let same : x ≡ s = grind arith in rw (here, sym same) (omega arith))
  | inr there ↦
      (let rest = stored_lamports-write id s' ss {s = s} (rw there at e) in
        rw there (omega (arith, rest)))
]

-- What is written at one id is not at another.
pub find_tournament-write_other :
    (id other : ℕ) (s' : Stored) (ss : List Stored)
    → s'.tournament.id ≡ id
    → id ≢ other
    → find_tournament other (write_tournament id s' ss) ≡ find_tournament other ss
unfolding find_tournament write_tournament
find_tournament-write_other id other s' [] e ne = refl
find_tournament-write_other id other s' (x ∷ ss) e ne = elim (Bool-cases (is_at id x)) [
  | inl here ↦
      (let not_new : is_at other s' ≡ false = grind arith in
        let not_old : is_at other x ≡ false = grind arith in rw (here, not_new, not_old) refl)
  | inr there ↦ elim (Bool-cases (is_at other x)) [
    | inl found ↦ rw (there, found) refl
    | inr lost ↦ rw (there, lost) (find_tournament-write_other id other s' ss e ne)
  ]
]

-- The tournament that is written is found, if it is open.
pub find_tournament-write :
    (id : ℕ) (s' : Stored) (ss : List Stored) {s : Stored}
    → find_tournament id ss ≡ some s
    → is_at id s' ≡ true
    → find_tournament id (write_tournament id s' ss) ≡ some s'
unfolding find_tournament write_tournament
find_tournament-write id s' [] e h = cc
find_tournament-write id s' (x ∷ ss) {s} e h = elim (Bool-cases (is_at id x)) [
  | inl here ↦ rw (here, h) refl
  | inr there ↦ rw there (rw there (find_tournament-write id s' ss {s = s} (rw there at e) h))
]
