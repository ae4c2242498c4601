-- ===== src/Arena/Store/Sound.antt =====
-- The well-formedness of all the tournaments of programs/prisoners-arena, from the setup on.
use prisoners_arena_program.Base.{
  ℕ, ◌^◌, ◌<◌, ◌≡◌, refl, arith, true, not, List, [], ◌∷◌, ok, inl, inr, >>=-eq-ok, sym,
}
use mathlib.Core.Path.{subst}
use prisoners_arena_program.Base.Int.{ℤ, pos, add_i64}
use prisoners_arena_program.Arena.State.{Pubkey, Config, Tournament, new_tournament, base_space}
use prisoners_arena_program.Arena.Ledger.{Wallets}
use prisoners_arena_program.Arena.World.{Runtime, World}
use prisoners_arena_program.Arena.Admin.{InitializeConfigParams, initialize_config}
use prisoners_arena_program.Arena.Finalize.{NextTournament, finalize_tournament}
use prisoners_arena_program.Arena.Sound.{IsSound, IsSoundWorld}
use prisoners_arena_program.Arena.Sound.Reach.{
  IsTyped, execute-IsSoundWorld, new_tournament-IsSoundWorld,
}
use prisoners_arena_program.Arena.Sound.Finalizing.{finalize_tournament-IsSoundWorld}
use prisoners_arena_program.Arena.Store.{
  Store, Transaction, calls, finalizes, refunds_from, view, stored, no_tournament, closes, process,
  process_all, initialize,
}
use prisoners_arena_program.Arena.Store.All.{All, All-find, All-write}
use prisoners_arena_program.Arena.Store.Steps.{process-calls, process-finalizes}

-- Every tournament is well-formed with its entries, and `max_participants` is a u16.
pub record IsSoundStore (st : Store) : Type 0 where
  pub typed : st.config.max_participants < 2 ^ 16
  pub sound : All IsSound st.tournaments

-- The next tournament is a new one, with the terms of the config.
pub next_tournament :
    (rt : Runtime) (signer : Pubkey) (now : ℤ) (bump : ℕ) (w w' : World) (n : NextTournament)
    → finalize_tournament rt signer now bump w ≡ ok (w', n)
    → n.tournament
      ≡ new_tournament w'.config.current_tournament_id w'.config.stake w'.config.house_fee_bps
          w'.config.matches_per_player w'.config.registration_duration w'.config.reveal_duration
          (add_i64 now w'.config.registration_duration)
          bump
unfolding finalize_tournament
next_tournament rt signer now bump w w' n h = grind arith

fresh-IsSound :
    (c : Config) (t : Tournament) (wallets : Wallets) (id stake fee k : ℕ) (d r ends : ℤ) (bump : ℕ)
    → c.max_participants < 2 ^ 16
    → t ≡ new_tournament id stake fee k d r ends bump
    → IsSound t []
fresh-IsSound c t wallets id stake fee k d r ends bump small e =
    (new_tournament-IsSoundWorld
      (record {
        config = c;
        config_lamports = 0;
        tournament = t;
        tournament_lamports = 0;
        entries = [];
        wallets = wallets;
      })
      id stake fee k d r ends bump small e refl).sound

-- The arguments are in their types.
abbrev pub IsTypedTransaction : Transaction → Type 0
IsTypedTransaction (calls id i) = IsTyped i
IsTypedTransaction (finalizes id signer now bump) = Unit
IsTypedTransaction (refunds_from id other signer now hashes entry player) = Unit

abbrev pub AllTypedTransactions : List Transaction → Type 0
AllTypedTransactions [] = Unit
AllTypedTransactions (t ∷ ts) = IsTypedTransaction t × AllTypedTransactions ts

-- The arguments are in their types, and the entry that `close_reveal` refunds is of the tournament
-- itself.
abbrev pub IsOwnTransaction : Transaction → Type 0
IsOwnTransaction (calls id i) = IsTyped i
IsOwnTransaction (finalizes id signer now bump) = Unit
IsOwnTransaction (refunds_from id other signer now hashes entry player) = ⊥

abbrev pub AllOwnTransactions : List Transaction → Type 0
AllOwnTransactions [] = Unit
AllOwnTransactions (t ∷ ts) = IsOwnTransaction t × AllOwnTransactions ts

-- The place of a tournament that is not given counts as well-formed.
no_tournament-IsSound :
    (st : Store) → st.config.max_participants < 2 ^ 16 → IsSoundWorld (view st no_tournament)
no_tournament-IsSound st small =
    new_tournament-IsSoundWorld (view st no_tournament) 0 0 0 0 (pos 0) (pos 0) (pos 0) 0 small refl
      refl

pub process-IsSoundStore :
    (rt : Runtime) (t : Transaction) (st st' : Store)
    → IsOwnTransaction t
    → IsSoundStore st
    → process rt t st ≡ ok st'
    → IsSoundStore st'
process-IsSoundStore rt (calls id i) st st' t v h = elim (process-calls rt id i st st' h) [
  | inl (config, w, p, eq) ↦
      (let after =
          execute-IsSoundWorld rt i (view st no_tournament) w t (no_tournament-IsSound st v.typed)
            p in
        subst IsSoundStore (sym eq) (record { typed = after.typed; sound = v.sound }))
  | inr (s, w, f, p, eq) ↦
      (let before = All-find IsSound id st.tournaments {s = s} v.sound f in
        let after =
          execute-IsSoundWorld rt i (view st s) w t (record { typed = v.typed; sound = before })
            p in
        subst IsSoundStore (sym eq) (record {
          typed = after.typed;
          sound =
              All-write IsSound id (stored (not (closes i)) w) st.tournaments v.sound after.sound;
        }))
]
process-IsSoundStore rt (finalizes id signer now bump) st st' t v h =
    let (s, w, next, f, p, free, eq) = process-finalizes rt id signer now bump st st' h in
    let before = All-find IsSound id st.tournaments {s = s} v.sound f in
    let after =
      finalize_tournament-IsSoundWorld rt signer now bump (view st s) w next
        (record { typed = v.typed; sound = before }) p in
    let c = w.config in
    let fresh =
      fresh-IsSound c next.tournament w.wallets c.current_tournament_id c.stake c.house_fee_bps
        c.matches_per_player c.registration_duration c.reveal_duration
        (add_i64 now c.registration_duration) bump after.typed
        (next_tournament rt signer now bump (view st s) w next p) in
    subst IsSoundStore (sym eq) (record {
      typed = after.typed;
      sound = (fresh, All-write IsSound id (stored true w) st.tournaments v.sound after.sound);
    })
process-IsSoundStore rt (refunds_from id other signer now hashes entry player) st st' t v h =
    absurd t

process_all-IsSoundStore :
    (rt : Runtime) (ts : List Transaction) (st st' : Store)
    → AllOwnTransactions ts
    → IsSoundStore st
    → process_all rt ts st ≡ ok st'
    → IsSoundStore st'
unfolding process_all
process_all-IsSoundStore rt [] st st' t v h = subst IsSoundStore (grind arith) v
process_all-IsSoundStore rt (x ∷ ts) st st' (t, all) v h =
    let (st₁, p, q) = >>=-eq-ok (process rt x st) (process_all rt ts) h in
    process_all-IsSoundStore rt ts st₁ st' all (process-IsSoundStore rt x st st₁ t v p) q

-- The first tournament is a new one, with the terms of the setup.
pub initialize-ok :
    (rt : Runtime) (admin : Pubkey) (p : InitializeConfigParams) (now : ℤ) (bump tb : ℕ)
    (wallets : Wallets) (st : Store)
    → initialize rt admin p now bump tb wallets ≡ ok st
    → st.tournaments
      ≡ record {
        tournament =
            new_tournament 0 p.stake 0 p.matches_per_player p.registration_duration
              p.reveal_duration
              (add_i64 now p.registration_duration)
              tb;
        lamports = rt.minimum_balance base_space;
        entries = [];
        is_open = true;
      }
        ∷ []
unfolding initialize initialize_config
initialize-ok rt admin p now bump tb wallets st h = grind arith

pub initialize-IsSoundStore :
    (rt : Runtime) (admin : Pubkey) (p : InitializeConfigParams) (now : ℤ) (bump tb : ℕ)
    (wallets : Wallets) (st : Store)
    → p.max_participants < 2 ^ 16
    → initialize rt admin p now bump tb wallets ≡ ok st
    → IsSoundStore st
unfolding initialize initialize_config
initialize-IsSoundStore rt admin p now bump tb wallets st small h =
    let opened = initialize-ok rt admin p now bump tb wallets st h in
    let limit : st.config.max_participants ≡ p.max_participants = grind arith in
    let typed : st.config.max_participants < 2 ^ 16 = omega (arith, limit) in
    record {
      typed = typed;
      sound = rw opened (
        fresh-IsSound st.config _ st.wallets 0 p.stake 0 p.matches_per_player
            p.registration_duration p.reveal_duration (add_i64 now p.registration_duration) tb typed
            refl,
        tt,
      );
    }

-- From an accepted `initialize_config` on, through any sequence of accepted transactions on any of
-- the tournaments, finalizations included, in which `close_reveal` refunds no entry of another
-- tournament, all the tournaments are well-formed.
pub initialize-process_all-IsSoundStore :
    (rt : Runtime) (admin : Pubkey) (p : InitializeConfigParams) (now : ℤ) (bump tb : ℕ)
    (wallets : Wallets) (st st' : Store) (ts : List Transaction)
    → p.max_participants < 2 ^ 16
    → initialize rt admin p now bump tb wallets ≡ ok st
    → AllOwnTransactions ts
    → process_all rt ts st ≡ ok st'
    → IsSoundStore st'
initialize-process_all-IsSoundStore rt admin p now bump tb wallets st st' ts small h typed g =
    process_all-IsSoundStore rt ts st st' typed
      (initialize-IsSoundStore rt admin p now bump tb wallets st small h) g
