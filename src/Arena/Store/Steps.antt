-- ===== src/Arena/Store/Steps.antt =====
-- What an accepted transaction of programs/prisoners-arena has done to the accounts.
use prisoners_arena_program.Base.{
  ℕ, ◌==◌, false, List, Option, ◌≡◌, ◌⊎◌, arith, true, not, none, some, [], ◌∷◌, ok, Bool-cases,
  Option-cases, Result-cases, inl, inr,
}
use prisoners_arena_program.Base.Int.{ℤ}
use prisoners_arena_program.Arena.State.{Pubkey}
use prisoners_arena_program.Arena.World.{Runtime, World}
use prisoners_arena_program.Arena.Finalize.{NextTournament, finalize_tournament}
use prisoners_arena_program.Arena.Session.{Instruction, closes_reveal, execute}
use prisoners_arena_program.Arena.Store.{
  Stored, Store, calls, finalizes, refunds_from, write_both, view, stored, no_tournament, on_config,
  closes, write_back, write_config, find_tournament, write_tournament, open_next, process,
}

-- What an accepted transaction was: an instruction on the config, one on a tournament, or the end of
-- one.
pub process-calls :
    (rt : Runtime) (id : ℕ) (i : Instruction) (st st' : Store)
    → process rt (calls id i) st ≡ ok st'
    → ((on_config i ≡ true)
        × (w : World) × (execute rt i (view st no_tournament) ≡ ok w)
        × (st' ≡ write_config w st))
      ⊎ ((s : Stored) × (w : World) × (find_tournament id st.tournaments ≡ some s)
          × (execute rt i (view st s) ≡ ok w)
          × (st' ≡ write_back id (not (closes i)) w st))
unfolding process
process-calls rt id i st st' h = elim (Bool-cases (on_config i)) [
  | inl config ↦ elim (Result-cases (execute rt i (view st no_tournament))) [
    | inr e ↦ absurd (grind arith)
    | inl (w, e) ↦ inl (config, w, e, grind arith)
  ]
  | inr plain ↦ elim (Option-cases (find_tournament id st.tournaments)) [
    | inl e ↦ absurd (grind arith)
    | inr (s, f) ↦ elim (Result-cases (execute rt i (view st s))) [
      | inr e ↦ absurd (grind arith)
      | inl (w, e) ↦ inr (s, w, f, e, grind arith)
    ]
  ]
]

-- What an accepted `finalize_tournament` on the accounts was.
pub process-finalizes :
    (rt : Runtime) (id : ℕ) (signer : Pubkey) (now : ℤ) (bump : ℕ) (st st' : Store)
    → process rt (finalizes id signer now bump) st ≡ ok st'
    → (s : Stored) × (w : World) × (next : NextTournament) × (find_tournament id st.tournaments
        ≡ some s)
      × (finalize_tournament rt signer now bump (view st s) ≡ ok (w, next))
      × (find_tournament next.tournament.id (write_tournament id (stored true w) st.tournaments)
          ≡ none)
      × (st' ≡ record (write_back id true w st) {
        tournaments =
            record {
              tournament = next.tournament;
              lamports = next.lamports;
              entries = [];
              is_open = true;
            }
            ∷ write_tournament id (stored true w) st.tournaments;
      })
unfolding process open_next
process-finalizes rt id signer now bump st st' h =
    elim (Option-cases (find_tournament id st.tournaments)) [
      | inl e ↦ absurd (grind arith)
      | inr (s, f) ↦ elim (Result-cases (finalize_tournament rt signer now bump (view st s))) [
        | inr e ↦ absurd (grind arith)
        | inl ((w, next), e) ↦
            elim (Option-cases (
              find_tournament next.tournament.id
                (write_tournament id (stored true w) st.tournaments))) [
                  | inr (x, g) ↦ absurd (grind arith)
                  | inl g ↦ (s, w, next, f, e, g, grind arith)
                ]
      ]
    ]

-- What an accepted `close_reveal` with an entry of another tournament was.
pub process-refunds_from :
    (rt : Runtime) (id other : ℕ) (signer : Pubkey) (now : ℤ) (hashes : List ℕ)
    (entry player : Option Pubkey) (st st' : Store)
    → process rt (refunds_from id other signer now hashes entry player) st ≡ ok st'
    → (s : Stored) × (o : Stored) × (w : World) × ((id == other) ≡ false)
      × (find_tournament id st.tournaments ≡ some s)
      × (find_tournament other st.tournaments ≡ some o)
      × (execute rt
            (closes_reveal signer now hashes entry player)
            (record (view st s) { entries = o.entries })
          ≡ ok w)
      × (st' ≡ write_both id s other o w st)
unfolding process
process-refunds_from rt id other signer now hashes entry player st st' h =
    elim (Bool-cases (id == other)) [
      | inl same ↦ absurd (grind arith)
      | inr apart ↦ elim (Option-cases (find_tournament id st.tournaments)) [
        | inl e ↦ absurd (grind arith)
        | inr (s, f) ↦ elim (Option-cases (find_tournament other st.tournaments)) [
          | inl e ↦ absurd (grind arith)
          | inr (o, g) ↦
              elim (Result-cases (
                execute rt (closes_reveal signer now hashes entry player)
                  (record (view st s) { entries = o.entries }))) [
                    | inr e ↦ absurd (grind arith)
                    | inl (w, e) ↦ (s, o, w, apart, f, g, e, grind arith)
                  ]
        ]
      ]
    ]
