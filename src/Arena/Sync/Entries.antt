-- ===== src/Arena/Sync/Entries.antt =====
-- Entries of programs/prisoners-arena with the scores at their indexes.
use prisoners_arena_program.Base.{
  ℕ, ◌≡◌, ◌≢◌, arith, none, some, List, [], ◌∷◌, ◌++◌, get_elem?, set, ◌==◌, Bool-cases, inl, inr,
  ==→eq, ==_false→ne, ap, sym, ◌∙◌,
}
use mathlib.Core.Path.{subst}
use mathlib.Core.Option.{some-injective}
use prisoners_arena_program.Arena.State.{Pubkey, Entry}
use prisoners_arena_program.Arena.World.{EntryAccount, find_entry, remove_entry, write_entry}
use prisoners_arena_program.Arena.Sound.Seats.{
  Seated, Holds, get_elem?-append, get_elem?-set_other, find_entry-cons,
}

-- The score at the index of an entry is its own.
abbrev pub Tells : List ℕ → Entry → Type 0
Tells scores e = get_elem? scores e.index ≡ some e.score

abbrev pub AllTell : List ℕ → List EntryAccount → Type 0
AllTell scores [] = Unit
AllTell scores (a ∷ as') = Tells scores a.entry × AllTell scores as'

pub AllTell-find :
    (scores : List ℕ) (player : Pubkey) (as' : List EntryAccount) {a : EntryAccount}
    → AllTell scores as'
    → find_entry player as' ≡ some a
    → Tells scores a.entry
unfolding find_entry
AllTell-find scores player [] p e = cc
AllTell-find scores player (x ∷ as') {a} (p, q) e = elim (Bool-cases (x.entry.player == player)) [
  | inl same ↦ (let eq : x ≡ a = grind arith in subst (λ y. Tells scores y.entry) eq p)
  | inr other ↦ AllTell-find scores player as' {a = a} q (grind arith)
]

pub AllTell-append :
    (scores : List ℕ) (v : ℕ) (as' : List EntryAccount)
    → AllTell scores as'
    → AllTell (scores ++ v ∷ []) as'
AllTell-append scores v [] p = tt
AllTell-append scores v (a ∷ as') (p, q) =
    (get_elem?-append scores v a.entry.index p, AllTell-append scores v as' q)

pub AllTell-remove :
    (scores : List ℕ) (player : Pubkey) (as' : List EntryAccount)
    → AllTell scores as'
    → AllTell scores (remove_entry player as')
unfolding remove_entry
AllTell-remove scores player [] p = tt
AllTell-remove scores player (a ∷ as') (p, q) = elim (Bool-cases (a.entry.player == player)) [
  | inl same ↦ rw same q
  | inr other ↦ rw other (p, AllTell-remove scores player as' q)
]

-- An entry is written over by one that tells the score at its index.
pub AllTell-write :
    (scores : List ℕ) (player : Pubkey) (e : Entry) (as' : List EntryAccount)
    → AllTell scores as'
    → Tells scores e
    → AllTell scores (write_entry player e as')
unfolding write_entry
AllTell-write scores player e [] p h = tt
AllTell-write scores player e (a ∷ as') (p, q) h = elim (Bool-cases (a.entry.player == player)) [
  | inl same ↦ rw same (h, q)
  | inr other ↦ rw other (p, AllTell-write scores player e as' q h)
]

-- An entry of another player than the one at `i` has another index.
other_index :
    (ks : List Pubkey) (ss : List ℕ) (i : ℕ) {p : Pubkey} (e : Entry)
    → Holds ks ss e
    → get_elem? ks i ≡ some p
    → e.player ≢ p
    → i ≢ e.index
other_index ks ss i e h at_i ne same =
    ne (some-injective _ _ (sym h.seat ∙ ap (get_elem? ks) (sym same) ∙ at_i))

-- The score at `i` changes, and nobody else has the key at `i`.
AllTell-set_other :
    (ks : List Pubkey) (ss scores : List ℕ) (i v : ℕ) {p : Pubkey} (as' : List EntryAccount)
    → Seated ks ss as'
    → get_elem? ks i ≡ some p
    → find_entry p as' ≡ none
    → AllTell scores as'
    → AllTell (set scores i v) as'
AllTell-set_other ks ss scores i v [] s at_i f t = tt
AllTell-set_other ks ss scores i v {p} (a ∷ as') (h, d, r) at_i f (t, ts) =
    let (ne, rest) = find_entry-cons p a as' f in
    (
      get_elem?-set_other scores i a.entry.index v (other_index ks ss i a.entry h at_i ne) ∙ t,
      AllTell-set_other ks ss scores i v as' r at_i rest ts,
    )

-- A player's score changes, in the entry and in the tournament.
pub AllTell-rescore :
    (ks : List Pubkey) (ss scores : List ℕ) (i v : ℕ) {p : Pubkey} (e : Entry)
    (as' : List EntryAccount)
    → Seated ks ss as'
    → get_elem? ks i ≡ some p
    → Tells (set scores i v) e
    → AllTell scores as'
    → AllTell (set scores i v) (write_entry p e as')
unfolding write_entry
AllTell-rescore ks ss scores i v e [] s at_i new t = tt
AllTell-rescore ks ss scores i v {p} e (a ∷ as') (h, d, r) at_i new (t, ts) =
    elim (Bool-cases (a.entry.player == p)) [
      | inl eq ↦
          rw eq (new, AllTell-set_other ks ss scores i v as' r at_i (rw (==→eq _ _ eq) at d) ts)
      | inr other ↦ rw other (
        get_elem?-set_other scores i a.entry.index v
              (other_index ks ss i a.entry h at_i (==_false→ne _ _ other))
            ∙ t,
        AllTell-rescore ks ss scores i v e as' r at_i new ts,
      )
    ]
