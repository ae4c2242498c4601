-- ===== src/Arena/Commitment.antt =====
-- What a commitment of programs/prisoners-arena binds its player to.
use prisoners_arena_program.Base.{
  ℕ, ◌≡◌, refl, arith, true, Option, some, List, [], ◌∷◌, ◌++◌, ok, length, if◌then◌else◌,
  Bool-cases, inl, inr, Option-cases, Result-cases, ap, sym, ◌∙◌, length-append, add_u32,
}
use mathlib.Core.Path.{subst}
use prisoners_arena_program.Base.Int.{ℤ}
use prisoners_arena_program.Arena.State.{
  Pubkey, Strategy, is_custom, strategy_index, Entry, or_empty,
}
use prisoners_arena_program.Arena.World.{
  Runtime, World, EntryAccount, find_entry, write_entry, assign,
}
use prisoners_arena_program.Arena.Player.{
  preimage, same_bytes, check_commitment, store_code, reveal_strategy,
}

same_bytes-eq : (xs ys : List ℕ) → same_bytes xs ys ≡ true → xs ≡ ys
unfolding same_bytes
same_bytes-eq [] [] h = refl
same_bytes-eq [] (y ∷ ys) h = cc
same_bytes-eq (x ∷ xs) [] h = cc
same_bytes-eq (x ∷ xs) (y ∷ ys) h = grind (arith, same_bytes-eq xs ys)

strategy_index_injective : (s s' : Strategy) → strategy_index s ≡ strategy_index s' → s ≡ s'
unfolding strategy_index
strategy_index_injective s s' h = ground arith

-- Two sums of lists with ends of one length.
append_injective :
    (xs xs' ys ys' : List ℕ)
    → length ys ≡ length ys'
    → xs ++ ys ≡ xs' ++ ys'
    → (xs ≡ xs') × (ys ≡ ys')
append_injective [] [] ys ys' l h = (refl, h)
append_injective [] (x ∷ xs') ys ys' l h =
    absurd (omega (arith, l, ap length h, length-append xs' ys'))
append_injective (x ∷ xs) [] ys ys' l h =
    absurd (omega (arith, l, ap length h, length-append xs ys))
append_injective (x ∷ xs) (x' ∷ xs') ys ys' l h =
    let (e, f) = append_injective xs xs' ys ys' l (cc) in (cc, f)

-- The bytes behind the strategy's index.
body : Runtime → Strategy → List ℕ → List ℕ → List ℕ
body rt s salt code = if is_custom s then rt.hash code ++ salt else salt

preimage-body :
    (rt : Runtime) (s : Strategy) (salt code : List ℕ)
    → preimage rt s salt code ≡ strategy_index s ∷ body rt s salt code
unfolding preimage body
preimage-body rt s salt code = ground arith

body_injective :
    (rt : Runtime) (s : Strategy) (salt salt' code code' : List ℕ)
    → length salt ≡ length salt'
    → body rt s salt code ≡ body rt s salt' code'
    → (salt ≡ salt') × (is_custom s ≡ true → rt.hash code ≡ rt.hash code')
unfolding body
body_injective rt s salt salt' code code' l h = elim (Bool-cases (is_custom s)) [
  | inl c ↦
      (let (e, f) = append_injective (rt.hash code) (rt.hash code') salt salt' l (rw c at h) in
        (f, λ _. e))
  | inr b ↦ (rw b at h, λ c. absurd (cc))
]

-- The preimages of two strategies with salts of one length.
preimage_injective :
    (rt : Runtime) (s s' : Strategy) (salt salt' code code' : List ℕ)
    → length salt ≡ length salt'
    → preimage rt s salt code ≡ preimage rt s' salt' code'
    → (s ≡ s') × (salt ≡ salt') × (is_custom s ≡ true → rt.hash code ≡ rt.hash code')
preimage_injective rt s s' salt salt' code code' l h =
    let lists : strategy_index s ∷ body rt s salt code
        ≡ strategy_index s' ∷ body rt s' salt' code' =
      sym (preimage-body rt s salt code) ∙ h ∙ preimage-body rt s' salt' code' in
    let same : s ≡ s' = strategy_index_injective s s' (cc) in
    let bodies : body rt s salt code ≡ body rt s salt' code' =
      subst (λ x. body rt s salt code ≡ body rt x salt' code') (sym same) (cc) in
    let (e, f) = body_injective rt s salt salt' code code' l bodies in (same, e, f)

-- What an accepted `check_commitment` has found: the bytes to commit to, with the code that is given
-- if the strategy is custom, have the commitment as their hash.
pub check_commitment-found :
    (rt : Runtime) (s : Strategy) (salt : List ℕ) (bytecode : Option (List ℕ)) (e e' : Entry)
    → check_commitment rt s salt bytecode e ≡ ok e'
    → (rt.hash (preimage rt s salt (or_empty bytecode)) ≡ e.commitment)
      × (e' ≡ (if is_custom s then store_code (or_empty bytecode) e else e))
unfolding check_commitment preimage
check_commitment-found rt s salt bytecode e e' h = elim (Bool-cases (is_custom s)) [
  | inr b ↦ (same_bytes-eq _ _ (grind arith), grind arith)
  | inl c ↦ elim (Option-cases bytecode) [
    | inl n ↦ absurd (grind arith)
    | inr (code, f) ↦ (same_bytes-eq _ _ (grind arith), grind arith)
  ]
]

-- Two lists are no collision of the hash.
abbrev pub Apart : Runtime → List ℕ → List ℕ → Type 0
Apart rt xs ys = rt.hash xs ≡ rt.hash ys → xs ≡ ys

-- One commitment lets one strategy through, and one entry.
check_commitment_binding :
    (rt : Runtime) (s s' : Strategy) (salt salt' : List ℕ) (code code' : Option (List ℕ))
    (e a b : Entry)
    → Apart rt (preimage rt s salt (or_empty code)) (preimage rt s' salt' (or_empty code'))
    → Apart rt (or_empty code) (or_empty code')
    → length salt ≡ length salt'
    → check_commitment rt s salt code e ≡ ok a
    → check_commitment rt s' salt' code' e ≡ ok b
    → (s ≡ s') × (a ≡ b)
check_commitment_binding rt s s' salt salt' code code' e a b one_preimage one_code l h h' =
    let c = or_empty code in
    let c' = or_empty code' in
    let (f, ea) = check_commitment-found rt s salt code e a h in
    let (f', eb) = check_commitment-found rt s' salt' code' e b h' in
    let (same, _, hashes) =
      preimage_injective rt s s' salt salt' c c' l (one_preimage (f ∙ sym f')) in
    let stored : (if is_custom s then store_code c e else e)
        ≡ (if is_custom s then store_code c' e else e) =
      elim (Bool-cases (is_custom s)) [
        | inl custom_one ↦ rw custom_one (ap (λ x. store_code x e) (one_code (hashes custom_one)))
        | inr built_in ↦ rw built_in refl
      ] in
    (
      same,
      ea
          ∙ stored
          ∙ subst
              (λ x.
                (if is_custom s then store_code c' e else e)
                ≡ (if is_custom x then store_code c' e else e))
              same refl
          ∙ sym eb,
    )

-- The world with a strategy, an entry and strategy bytes in their places.
unfoldable pub revealed_world : Pubkey → Strategy → Entry → List ℕ → World → World
revealed_world player s e ss w = record w {
  tournament = record w.tournament {
    strategies = ss;
    reveals_completed = add_u32 w.tournament.reveals_completed 1;
  };
  entries = write_entry player (record e { strategy = s; revealed = true }) w.entries;
}

-- The world after an accepted reveal.
pub reveal_strategy-result :
    (rt : Runtime) (player : Pubkey) (s : Strategy) (salt : List ℕ) (code : Option (List ℕ))
    (now : ℤ) (w w' : World)
    → reveal_strategy rt player s salt code now w ≡ ok w'
    → (a : EntryAccount) × (e : Entry) × (ss : List ℕ) × (find_entry player w.entries ≡ some a)
      × (check_commitment rt s salt code a.entry ≡ ok e)
      × (assign w.tournament.strategies e.index (strategy_index s) ≡ ok ss)
      × (w' ≡ revealed_world player s e ss w)
unfolding reveal_strategy revealed_world
reveal_strategy-result rt player s salt code now w w' h =
    elim (Option-cases (find_entry player w.entries)) [
      | inl e ↦ absurd (grind arith)
      | inr (a, f) ↦ elim (Result-cases (check_commitment rt s salt code a.entry)) [
        | inr e ↦ absurd (grind arith)
        | inl (e, c) ↦
            elim (Result-cases (assign w.tournament.strategies e.index (strategy_index s))) [
              | inr x ↦ absurd (grind arith)
              | inl (ss, d) ↦ (a, e, ss, f, c, d, grind arith)
            ]
      ]
    ]

-- Two reveals of one entry that are both accepted, with salts of one length, lead to the same world
-- with the same strategy, whatever their programs and times, where what they hash is no collision:
-- neither the bytes committed to nor the two programs differ and have one hash.
pub reveal_strategy_binding :
    (rt : Runtime) (player : Pubkey) (s s' : Strategy) (salt salt' : List ℕ)
    (code code' : Option (List ℕ)) (now now' : ℤ) (w u v : World)
    → Apart rt (preimage rt s salt (or_empty code)) (preimage rt s' salt' (or_empty code'))
    → Apart rt (or_empty code) (or_empty code')
    → length salt ≡ length salt'
    → reveal_strategy rt player s salt code now w ≡ ok u
    → reveal_strategy rt player s' salt' code' now' w ≡ ok v
    → (s ≡ s') × (u ≡ v)
reveal_strategy_binding rt player s s' salt salt' code code' now now' w u v one_preimage one_code l
      h h' =
    let (a, e, ss, f, c, d, eu) = reveal_strategy-result rt player s salt code now w u h in
    let (a', e', ss', f', c', d', ev) =
      reveal_strategy-result rt player s' salt' code' now' w v h' in
    let found : a' ≡ a = cc in
    let (same, entries) =
      check_commitment_binding rt s s' salt salt' code code' a.entry e e' one_preimage one_code l c
        (subst (λ x. check_commitment rt s' salt' code' x.entry ≡ ok e') found c') in
    let slots : ss ≡ ss' = cc in (same, cc)
