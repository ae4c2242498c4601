-- ===== src/Arena/Sound/Occupied.antt =====
-- The entries behind the slots of the active players of programs/prisoners-arena.
use prisoners_arena_program.Base.{
  ℕ, zero, suc, ◌<◌, ◌≡◌, ◌≢◌, arith, none, some, List, [], ◌∷◌, length, get_elem?, set, ◌==◌,
  Bool-cases, inl, inr, ==→eq, ==_false→ne, ◌∙◌,
}
use prisoners_arena_program.Arena.State.{Pubkey}
use prisoners_arena_program.Arena.World.{EntryAccount, find_entry}
use prisoners_arena_program.Arena.Sound.Slots.{active, active-set}
use prisoners_arena_program.Arena.Sound.Seats.{Seated, Seated-set_other, get_elem?-set_other}

active-get_elem? :
    (ks : List Pubkey) (i : ℕ) {p : Pubkey} → get_elem? ks i ≡ some p → 0 < p → 0 < active ks
active-get_elem? [] i e h = cc
active-get_elem? (k ∷ ks) zero e h = grind arith
active-get_elem? (k ∷ ks) (suc i) e h = omega (arith, active-get_elem? ks i e h)

find_entry_here :
    (p : Pubkey) (a : EntryAccount) (as' : List EntryAccount)
    → a.entry.player ≡ p
    → find_entry p (a ∷ as') ≡ some a
unfolding find_entry
find_entry_here p a as' h = grind arith

find_entry_there :
    (p : Pubkey) (a : EntryAccount) (as' : List EntryAccount)
    → a.entry.player ≢ p
    → find_entry p (a ∷ as') ≡ find_entry p as'
unfolding find_entry
find_entry_there p a as' h = grind arith

pub find_entry-Occupied :
    (ks : List Pubkey) (ss : List ℕ) (as' : List EntryAccount) (i : ℕ) {p : Pubkey}
    → Seated ks ss as'
    → length as' ≡ active ks
    → get_elem? ks i ≡ some p
    → 0 < p
    → (a : EntryAccount) × (find_entry p as' ≡ some a) × (a.entry.index ≡ i)
find_entry-Occupied ks ss [] i s n e h = absurd (omega (arith, active-get_elem? ks i e h))
find_entry-Occupied ks ss (a ∷ as') i {p} (h_a, d, r) n e h =
    elim (Bool-cases (a.entry.index == i)) [
      | inl same ↦
          (let at_i : a.entry.index ≡ i = ==→eq _ _ same in
            let named : a.entry.player ≡ p = cc in (a, find_entry_here p a as' named, at_i))
      | inr other ↦
          (let ne = ==_false→ne a.entry.index i other in
            let (b, f, at_b) =
              find_entry-Occupied (set ks a.entry.index 0) (set ss a.entry.index 255) as' i
                (Seated-set_other ks ss a.entry.index 0 255 as' h_a.seat d r)
                (omega (arith, n, active-set ks a.entry.index h_a.seat h_a.keyed))
                (get_elem?-set_other ks a.entry.index i 0 ne ∙ e) h in
            let strangers : a.entry.player ≢ p =
              λ q. absurd (let g : find_entry p as' ≡ none = rw q at d in cc) in
            (b, find_entry_there p a as' strangers ∙ f, at_b))
    ]
