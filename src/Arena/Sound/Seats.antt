-- ===== src/Arena/Sound/Seats.antt =====
-- The entries of a tournament of programs/prisoners-arena against the slots of their players.
use prisoners_arena_program.Base.{
  ℕ, zero, suc, ◌+◌, ◌<◌, ◌≡◌, ◌≢◌, refl, arith, none, some, List, [], ◌∷◌, ◌++◌, false, length,
  get_elem?, set, ◌==◌, Bool-cases, inl, inr, ==→eq, ==_false→ne, ap, sym, ◌∙◌,
}
use mathlib.Core.Path.{subst}
use mathlib.Core.Option.{some-injective}
use prisoners_arena_program.Arena.State.{Pubkey, Entry}
use prisoners_arena_program.Arena.World.{EntryAccount, find_entry, remove_entry, write_entry}

-- The slot of an entry holds its player, who has a key; it has a strategy only when that is revealed.
pub record Holds (ks : List Pubkey) (ss : List ℕ) (e : Entry) : Type 0 where
  pub seat : get_elem? ks e.index ≡ some e.player
  pub keyed : 0 < e.player
  pub sealed : e.revealed ≡ false → get_elem? ss e.index ≡ some 255

-- Every entry has its slot, and no player has two.
abbrev pub Seated : List Pubkey → List ℕ → List EntryAccount → Type 0
Seated ks ss [] = Unit
Seated ks ss (a ∷ as') =
    Holds ks ss a.entry × (find_entry a.entry.player as' ≡ none) × Seated ks ss as'

pub get_elem?-set_other {ℓ} :
    {A : Type ℓ} (xs : List A) (i j : ℕ) (v : A) → i ≢ j → get_elem? (set xs i v) j ≡ get_elem? xs j
get_elem?-set_other [] i j v h = refl
get_elem?-set_other (x ∷ xs) zero zero v h = absurd (h refl)
get_elem?-set_other (x ∷ xs) zero (suc j) v h = refl
get_elem?-set_other (x ∷ xs) (suc i) zero v h = refl
get_elem?-set_other (x ∷ xs) (suc i) (suc j) v h = get_elem?-set_other xs i j v (λ e. h (ap suc e))

pub get_elem?-append {ℓ} :
    {A : Type ℓ} (xs : List A) (v : A) (j : ℕ) {x : A}
    → get_elem? xs j ≡ some x
    → get_elem? (xs ++ v ∷ []) j ≡ some x
get_elem?-append [] v j h = cc
get_elem?-append (y ∷ xs) v zero h = h
get_elem?-append (y ∷ xs) v (suc j) h = get_elem?-append xs v j h

pub get_elem?-last {ℓ} :
    {A : Type ℓ} (xs : List A) (v : A) → get_elem? (xs ++ v ∷ []) (length xs) ≡ some v
get_elem?-last [] v = refl
get_elem?-last (x ∷ xs) v = get_elem?-last xs v

pub Seated-find :
    (ks : List Pubkey) (ss : List ℕ) (p : Pubkey) (as' : List EntryAccount) {a : EntryAccount}
    → Seated ks ss as'
    → find_entry p as' ≡ some a
    → Holds ks ss a.entry
unfolding find_entry
Seated-find ks ss p [] s e = cc
Seated-find ks ss p (b ∷ bs) {a} s e = elim (Bool-cases (b.entry.player == p)) [
  | inl same ↦ (let b-eq : b ≡ a = grind arith in subst (λ x. Holds ks ss x.entry) b-eq s.0)
  | inr other ↦ Seated-find ks ss p bs {a = a} s.2 (grind arith)
]

pub Seated-append :
    (ks : List Pubkey) (ss : List ℕ) (k : Pubkey) (s : ℕ) (as' : List EntryAccount)
    → Seated ks ss as'
    → Seated (ks ++ k ∷ []) (ss ++ s ∷ []) as'
Seated-append ks ss k s [] h = tt
Seated-append ks ss k s (a ∷ as') (h, d, r) = (
  record {
    seat = get_elem?-append ks k a.entry.index h.seat;
    keyed = h.keyed;
    sealed = λ u. get_elem?-append ss s a.entry.index (h.sealed u);
  },
  d,
  Seated-append ks ss k s as' r,
)

-- A change of another player's slot.
Holds-set_other :
    (ks : List Pubkey) (ss : List ℕ) (i : ℕ) (k : Pubkey) (s : ℕ) {p : Pubkey} (e : Entry)
    → get_elem? ks i ≡ some p
    → e.player ≢ p
    → Holds ks ss e
    → Holds (set ks i k) (set ss i s) e
Holds-set_other ks ss i k s {p} e at_i ne h =
    let other : i ≢ e.index =
      λ same. ne (some-injective _ _ (sym h.seat ∙ ap (get_elem? ks) (sym same) ∙ at_i)) in
    record {
      seat = get_elem?-set_other ks i e.index k other ∙ h.seat;
      keyed = h.keyed;
      sealed = λ u. get_elem?-set_other ss i e.index s other ∙ h.sealed u;
    }

pub find_entry-cons :
    (p : Pubkey) (a : EntryAccount) (as' : List EntryAccount)
    → find_entry p (a ∷ as') ≡ none
    → (a.entry.player ≢ p) × (find_entry p as' ≡ none)
unfolding find_entry
find_entry-cons p a as' h = elim (Bool-cases (a.entry.player == p)) [
  | inl same ↦ absurd (grind arith)
  | inr other ↦ (==_false→ne _ _ other, grind arith)
]

pub Seated-set_other :
    (ks : List Pubkey) (ss : List ℕ) (i : ℕ) (k : Pubkey) (s : ℕ) {p : Pubkey}
    (as' : List EntryAccount)
    → get_elem? ks i ≡ some p
    → find_entry p as' ≡ none
    → Seated ks ss as'
    → Seated (set ks i k) (set ss i s) as'
Seated-set_other ks ss i k s [] e f h = tt
Seated-set_other ks ss i k s {p} (a ∷ as') e f (h, d, r) =
    let (ne, rest) = find_entry-cons p a as' f in
    (Holds-set_other ks ss i k s a.entry e ne h, d, Seated-set_other ks ss i k s as' e rest r)

find_entry-remove_entry :
    (p q : Pubkey) (as' : List EntryAccount)
    → find_entry q as' ≡ none
    → find_entry q (remove_entry p as') ≡ none
unfolding find_entry remove_entry
find_entry-remove_entry p q [] h = refl
find_entry-remove_entry p q (a ∷ as') h = grind (arith, find_entry-remove_entry p q as')

pub Seated-remove :
    (ks : List Pubkey) (ss : List ℕ) (p : Pubkey) (as' : List EntryAccount)
    → Seated ks ss as'
    → Seated ks ss (remove_entry p as')
unfolding remove_entry
Seated-remove ks ss p [] h = tt
Seated-remove ks ss p (a ∷ as') (h, d, r) = elim (Bool-cases (a.entry.player == p)) [
  | inl same ↦ rw same r
  | inr other ↦
      rw other (h, find_entry-remove_entry p a.entry.player as' d, Seated-remove ks ss p as' r)
]

-- The slot of a player is emptied with the entry.
pub Seated-vacate :
    (ks : List Pubkey) (ss : List ℕ) (p : Pubkey) (as' : List EntryAccount) (k : Pubkey) (s i : ℕ)
    → Seated ks ss as'
    → get_elem? ks i ≡ some p
    → Seated (set ks i k) (set ss i s) (remove_entry p as')
unfolding remove_entry
Seated-vacate ks ss p [] k s i h e = tt
Seated-vacate ks ss p (a ∷ as') k s i (h, d, r) e = elim (Bool-cases (a.entry.player == p)) [
  | inl same ↦ rw same (Seated-set_other ks ss i k s as' e (rw (==→eq _ _ same) at d) r)
  | inr other ↦ rw other (
    Holds-set_other ks ss i k s a.entry e (==_false→ne _ _ other) h,
    find_entry-remove_entry p a.entry.player as' d,
    Seated-vacate ks ss p as' k s i r e,
  )
]

find_entry-write_entry :
    (p q : Pubkey) (e : Entry) (as' : List EntryAccount)
    → e.player ≡ p
    → find_entry q as' ≡ none
    → find_entry q (write_entry p e as') ≡ none
unfolding find_entry write_entry
find_entry-write_entry p q e [] same h = refl
find_entry-write_entry p q e (a ∷ as') same h = grind (arith, find_entry-write_entry p q e as' same)

-- An entry is written over.
pub Seated-write :
    (ks : List Pubkey) (ss : List ℕ) (p : Pubkey) (e : Entry) (as' : List EntryAccount)
    → Seated ks ss as'
    → Holds ks ss e
    → e.player ≡ p
    → Seated ks ss (write_entry p e as')
unfolding write_entry
Seated-write ks ss p e [] h new same = tt
Seated-write ks ss p e (a ∷ as') (h, d, r) new same = elim (Bool-cases (a.entry.player == p)) [
  | inl eq ↦ rw eq (new, rw (==→eq _ _ eq ∙ sym same) at d, r)
  | inr other ↦ rw other (
    h,
    find_entry-write_entry p a.entry.player e as' same d,
    Seated-write ks ss p e as' r new same,
  )
]

set-get_elem? {ℓ} :
    {A : Type ℓ} (xs : List A) (i : ℕ) {x : A} → get_elem? xs i ≡ some x → set xs i x ≡ xs
set-get_elem? [] i h = refl
set-get_elem? (y ∷ xs) zero h = ap (λ z. z ∷ xs) (sym (some-injective _ _ h))
set-get_elem? (y ∷ xs) (suc i) h = ap (◌∷◌ y) (set-get_elem? xs i h)

-- An entry is written over, with the strategy in its slot.
pub Seated-mark :
    (ks : List Pubkey) (ss : List ℕ) (p : Pubkey) (e : Entry) (i s : ℕ) (as' : List EntryAccount)
    → Seated ks ss as'
    → get_elem? ks i ≡ some p
    → Holds ks (set ss i s) e
    → e.player ≡ p
    → Seated ks (set ss i s) (write_entry p e as')
unfolding write_entry
Seated-mark ks ss p e i s [] h at_i new same = tt
Seated-mark ks ss p e i s (a ∷ as') (h, d, r) at_i new same =
    let keep = set-get_elem? ks i at_i in
    elim (Bool-cases (a.entry.player == p)) [
      | inl eq ↦ rw eq (
        new,
        rw (==→eq _ _ eq ∙ sym same) at d,
        rw keep at (Seated-set_other ks ss i p s as' at_i (rw (==→eq _ _ eq) at d) r),
      )
      | inr other ↦ rw other (
        rw keep at (Holds-set_other ks ss i p s a.entry at_i (==_false→ne _ _ other) h),
        find_entry-write_entry p a.entry.player e as' same d,
        Seated-mark ks ss p e i s as' r at_i new same,
      )
    ]

-- The entries are counted.
pub length-remove_entry :
    (p : Pubkey) (as' : List EntryAccount) {a : EntryAccount}
    → find_entry p as' ≡ some a
    → length (remove_entry p as') + 1 ≡ length as'
unfolding find_entry remove_entry
length-remove_entry p [] h = cc
length-remove_entry p (b ∷ bs) h = grind (arith, length-remove_entry p bs)

pub length-write_entry :
    (p : Pubkey) (e : Entry) (as' : List EntryAccount) → length (write_entry p e as') ≡ length as'
unfolding write_entry
length-write_entry p e [] = refl
length-write_entry p e (a ∷ as') = ground (arith, length-write_entry p e as')
