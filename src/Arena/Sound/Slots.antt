-- ===== src/Arena/Sound/Slots.antt =====
-- The slots of a tournament of programs/prisoners-arena: the key and the strategy of each player.
use prisoners_arena_program.Base.{
  ℕ, zero, suc, ◌+◌, ◌≤◌, ◌<◌, ◌≡◌, refl, arith, some, List, [], ◌∷◌, ◌++◌, ok, length, get_elem?,
  set, if◌then◌else◌, ◌==◌,
}
use prisoners_arena_program.Arena.State.{Pubkey}
use prisoners_arena_program.Arena.Running.{all_revealed}

-- The players who are still in: the slots that are not emptied.
abbrev pub active : List Pubkey → ℕ
active [] = 0
active (k ∷ ks) = (if k == 0 then 0 else 1) + active ks

-- One slot counts as revealed if its player is in and it has a strategy.
abbrev pub slot : Pubkey → ℕ → ℕ
slot k s = if k == 0 then 0 else if s == 255 then 0 else 1

abbrev pub revealed : List Pubkey → List ℕ → ℕ
revealed [] ss = 0
revealed (k ∷ ks) [] = 0
revealed (k ∷ ks) (s ∷ ss) = slot k s + revealed ks ss

pub active-append : (ks : List Pubkey) (k : Pubkey) → 0 < k → active (ks ++ k ∷ []) ≡ active ks + 1
active-append [] k h = ground arith
active-append (j ∷ ks) k h = omega (arith, active-append ks k h)

pub active-set :
    (ks : List Pubkey) (i : ℕ) {k : Pubkey}
    → get_elem? ks i ≡ some k
    → 0 < k
    → active (set ks i 0) + 1 ≡ active ks
active-set [] i e h = cc
active-set (j ∷ ks) zero e h = grind arith
active-set (j ∷ ks) (suc i) e h = omega (arith, active-set ks i e h)

pub revealed-append :
    (ks : List Pubkey) (ss : List ℕ) (k : Pubkey)
    → length ss ≡ length ks
    → revealed (ks ++ k ∷ []) (ss ++ 255 ∷ []) ≡ revealed ks ss
revealed-append [] [] k h = ground arith
revealed-append [] (s ∷ ss) k h = absurd (omega arith)
revealed-append (j ∷ ks) [] k h = absurd (omega arith)
revealed-append (j ∷ ks) (s ∷ ss) k h = omega (arith, revealed-append ks ss k (omega arith))

pub revealed-vacate :
    (ks : List Pubkey) (ss : List ℕ) (i : ℕ) {k s : ℕ}
    → get_elem? ks i ≡ some k
    → get_elem? ss i ≡ some s
    → revealed (set ks i 0) (set ss i 255) + slot k s ≡ revealed ks ss
revealed-vacate [] ss i e f = cc
revealed-vacate (j ∷ ks) [] i e f = cc
revealed-vacate (j ∷ ks) (t ∷ ss) zero e f = grind arith
revealed-vacate (j ∷ ks) (t ∷ ss) (suc i) e f = omega (arith, revealed-vacate ks ss i e f)

pub revealed-mark :
    (ks : List Pubkey) (ss : List ℕ) (i s : ℕ) {k : Pubkey}
    → get_elem? ks i ≡ some k
    → 0 < k
    → get_elem? ss i ≡ some 255
    → s < 255
    → revealed ks (set ss i s) ≡ revealed ks ss + 1
revealed-mark [] ss i s e p f h = cc
revealed-mark (j ∷ ks) [] i s e p f h = cc
revealed-mark (j ∷ ks) (t ∷ ss) zero s e p f h = grind arith
revealed-mark (j ∷ ks) (t ∷ ss) (suc i) s e p f h = omega (arith, revealed-mark ks ss i s e p f h)

pub revealed-le-active : (ks : List Pubkey) (ss : List ℕ) → revealed ks ss ≤ active ks
revealed-le-active [] ss = omega arith
revealed-le-active (k ∷ ks) [] = omega arith
revealed-le-active (k ∷ ks) (s ∷ ss) = ground (arith, revealed-le-active ks ss)

pub active-le-length : (ks : List Pubkey) → active ks ≤ length ks
active-le-length [] = omega arith
active-le-length (k ∷ ks) = ground (arith, active-le-length ks)

-- A slot of an active player, where all of them are revealed.
pub slot-of_all :
    (ks : List Pubkey) (ss : List ℕ) (i : ℕ) {k s : ℕ}
    → revealed ks ss ≡ active ks
    → get_elem? ks i ≡ some k
    → get_elem? ss i ≡ some s
    → 0 < k
    → slot k s ≡ 1
slot-of_all [] ss i all e f h = cc
slot-of_all (j ∷ ks) [] i all e f h = cc
slot-of_all (j ∷ ks) (t ∷ ss) zero all e f h = grind (arith, revealed-le-active ks ss)
slot-of_all (j ∷ ks) (t ∷ ss) (suc i) all e f h =
    slot-of_all ks ss i (ground (arith, revealed-le-active ks ss)) e f h

-- Where all the active players are revealed, the check of `run_matches` passes.
pub all_revealed-ok :
    (ks : List Pubkey) (ss : List ℕ)
    → length ss ≡ length ks
    → revealed ks ss ≡ active ks
    → all_revealed ks ss ≡ ok tt
unfolding all_revealed
all_revealed-ok [] ss l h = refl
all_revealed-ok (k ∷ ks) [] l h = absurd (omega arith)
all_revealed-ok (k ∷ ks) (s ∷ ss) l h =
    ground (arith, revealed-le-active ks ss, all_revealed-ok ks ss (omega arith))

-- A slot with a key has a strategy byte.
pub get_elem?-paired :
    (ks ss : List ℕ) (i : ℕ) {k : ℕ}
    → length ss ≡ length ks
    → get_elem? ks i ≡ some k
    → (s : ℕ) × (get_elem? ss i ≡ some s)
get_elem?-paired [] ss i l e = cc
get_elem?-paired (k ∷ ks) [] i l e = absurd (omega arith)
get_elem?-paired (k ∷ ks) (s ∷ ss) zero l e = (s, refl)
get_elem?-paired (k ∷ ks) (s ∷ ss) (suc i) l e = get_elem?-paired ks ss i (omega arith) e
