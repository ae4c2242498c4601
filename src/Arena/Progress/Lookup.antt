-- ===== src/Arena/Progress/Lookup.antt =====
-- Lists and entries of programs/prisoners-arena: what is found, and bounds on what is written.
use prisoners_arena_program.Base.{
  ℕ, zero, suc, ◌≤◌, ◌<◌, ◌≡◌, refl, arith, some, List, [], ◌∷◌, length, get_elem?, set, Bool-cases,
  inl, inr, ◌==◌,
}
use mathlib.Core.Path.{subst}
use prisoners_arena_program.Arena.State.{Pubkey, Entry}
use prisoners_arena_program.Arena.World.{EntryAccount, find_entry, write_entry}

pub get_elem?-inside {ℓ} :
    {A : Type ℓ} (xs : List A) (i : ℕ) → i < length xs → (x : A) × (get_elem? xs i ≡ some x)
get_elem?-inside [] i h = absurd (omega arith)
get_elem?-inside (x ∷ xs) zero h = (x, refl)
get_elem?-inside (x ∷ xs) (suc i) h = get_elem?-inside xs i (omega arith)

-- Every number is at most `b`.
abbrev pub AllLe : ℕ → List ℕ → Type 0
AllLe b [] = Unit
AllLe b (x ∷ xs) = (x ≤ b) × AllLe b xs

pub AllLe-weaken : (a b : ℕ) (xs : List ℕ) → a ≤ b → AllLe a xs → AllLe b xs
AllLe-weaken a b [] h p = tt
AllLe-weaken a b (x ∷ xs) h p = (omega arith, AllLe-weaken a b xs h p.1)

pub AllLe-set : (b : ℕ) (xs : List ℕ) (i v : ℕ) → v ≤ b → AllLe b xs → AllLe b (set xs i v)
AllLe-set b [] i v h p = tt
AllLe-set b (x ∷ xs) zero v h p = (h, p.1)
AllLe-set b (x ∷ xs) (suc i) v h p = (p.0, AllLe-set b xs i v h p.1)

pub AllLe-get_elem? :
    (b : ℕ) (xs : List ℕ) (i : ℕ) {x : ℕ} → AllLe b xs → get_elem? xs i ≡ some x → x ≤ b
AllLe-get_elem? b [] i p e = cc
AllLe-get_elem? b (x ∷ xs) zero p e = grind arith
AllLe-get_elem? b (x ∷ xs) (suc i) p e = AllLe-get_elem? b xs i p.1 e

-- An entry with a score of at most `b`, whose program fits its array.
pub record IsPlayable (b : ℕ) (e : Entry) : Type 0 where
  pub low : e.score ≤ b
  pub fits : e.bytecode_len ≤ length e.bytecode

abbrev pub AllPlayable : ℕ → List EntryAccount → Type 0
AllPlayable b [] = Unit
AllPlayable b (a ∷ as') = IsPlayable b a.entry × AllPlayable b as'

pub AllPlayable-weaken :
    (a b : ℕ) (as' : List EntryAccount) → a ≤ b → AllPlayable a as' → AllPlayable b as'
AllPlayable-weaken a b [] h p = tt
AllPlayable-weaken a b (x ∷ as') h (p, q) =
    (record { low = omega (arith, p.low); fits = p.fits }, AllPlayable-weaken a b as' h q)

pub AllPlayable-find :
    (b : ℕ) (player : Pubkey) (as' : List EntryAccount) {a : EntryAccount}
    → AllPlayable b as'
    → find_entry player as' ≡ some a
    → IsPlayable b a.entry
unfolding find_entry
AllPlayable-find b player [] p e = cc
AllPlayable-find b player (x ∷ as') {a} (p, q) e = elim (Bool-cases (x.entry.player == player)) [
  | inl same ↦ (let eq : x ≡ a = grind arith in subst (λ y. IsPlayable b y.entry) eq p)
  | inr other ↦ AllPlayable-find b player as' {a = a} q (grind arith)
]

pub AllPlayable-write :
    (b : ℕ) (player : Pubkey) (e : Entry) (as' : List EntryAccount)
    → AllPlayable b as'
    → IsPlayable b e
    → AllPlayable b (write_entry player e as')
unfolding write_entry
AllPlayable-write b player e [] p h = tt
AllPlayable-write b player e (x ∷ as') (p, q) h = elim (Bool-cases (x.entry.player == player)) [
  | inl same ↦ rw same (h, q)
  | inr other ↦ rw other (p, AllPlayable-write b player e as' q h)
]
