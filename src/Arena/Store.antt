-- ===== src/Arena/Store.antt =====
-- programs/prisoners-arena/src/lib.rs: the instructions on all the accounts, those of several
-- tournaments. A tournament is at the address of its id.
pub mod Finishing
pub mod Slots
pub mod Steps
pub mod Limits
pub mod Identity
pub mod Isolation
pub mod Lamports
pub mod All
pub mod Sound
pub mod Invariant
pub mod Synced
pub mod Pooled
use prisoners_arena_program.Base.{
  ℕ, ◌+◌, Bool, true, false, ◌&&◌, Option, none, some, List, [], ◌∷◌, ok, err, ok_or, require,
  ◌>>=◌, ◌>>◌, not, ◌==◌, if◌then◌else◌,
}
use prisoners_arena_program.Base.Int.{ℤ, pos}
use prisoners_arena_program.Arena.Error.{Outcome, constraint_violated}
use prisoners_arena_program.Arena.State.{
  Pubkey, Config, Tournament, new_tournament, config_len, base_space,
}
use prisoners_arena_program.Arena.Ledger.{Wallets, held, debit}
use prisoners_arena_program.Arena.World.{Runtime, World, EntryAccount, entry_lamports}
use prisoners_arena_program.Arena.Admin.{InitializeConfigParams, initialize_config}
use prisoners_arena_program.Arena.Finalize.{NextTournament, finalize_tournament}
use prisoners_arena_program.Arena.Session.{
  Instruction, updates, withdraws, enters, reveals, claims_refund, claims_payout,
  closes_registration, closes_reveal, forfeits, runs, closes_entry, closes_tournament, execute,
}

-- A tournament's account with the entries of its players. Once `close_tournament` has zeroed the
-- account's data it is not open, and no instruction takes it.
pub record Stored : Type 0 where
  pub tournament : Tournament
  pub lamports : ℕ
  pub entries : List EntryAccount
  pub is_open : Bool

pub record Store : Type 0 where
  pub config : Config
  pub config_lamports : ℕ
  pub tournaments : List Stored
  pub wallets : Wallets

-- Whether an account is at the address of an id.
abbrev pub is_at : ℕ → Stored → Bool
is_at id s = s.is_open && (s.tournament.id == id)

unfoldable pub find_tournament : ℕ → List Stored → Option Stored
find_tournament id [] = none
find_tournament id (s ∷ ss) = if is_at id s then some s else find_tournament id ss

unfoldable pub write_tournament : ℕ → Stored → List Stored → List Stored
write_tournament id s [] = []
write_tournament id s (x ∷ xs) = if is_at id x then s ∷ xs else x ∷ write_tournament id s xs

-- The accounts that an instruction on a tournament is given.
abbrev pub view : Store → Stored → World
view st s = record {
  config = st.config;
  config_lamports = st.config_lamports;
  tournament = s.tournament;
  tournament_lamports = s.lamports;
  entries = s.entries;
  wallets = st.wallets;
}

abbrev pub stored : Bool → World → Stored
stored is_open w = record {
  tournament = w.tournament;
  lamports = w.tournament_lamports;
  entries = w.entries;
  is_open = is_open;
}

-- `update_config` and `withdraw_fees` are given no tournament.
abbrev pub on_config : Instruction → Bool
on_config (updates signer p) = true
on_config (withdraws signer) = true
on_config _ = false

-- The place of the tournament that is not given.
abbrev pub no_tournament : Stored
no_tournament = record {
  tournament = new_tournament 0 0 0 0 (pos 0) (pos 0) (pos 0) 0;
  lamports = 0;
  entries = [];
  is_open = false;
}

abbrev pub closes : Instruction → Bool
closes (closes_tournament signer now) = true
closes _ = false

-- The accounts after an instruction on the tournament at `id`.
abbrev pub write_back : ℕ → Bool → World → Store → Store
write_back id is_open w st = record {
  config = w.config;
  config_lamports = w.config_lamports;
  tournaments = write_tournament id (stored is_open w) st.tournaments;
  wallets = w.wallets;
}

-- The accounts after `close_reveal` on the tournament `s` at `id` with an entry of `o` at `other`:
-- the world has the tournament of the one and the entries of the other.
abbrev pub write_both : ℕ → Stored → ℕ → Stored → World → Store → Store
write_both id s other o w st = record (write_back id true (record w { entries = s.entries }) st) {
  tournaments =
      write_tournament other (record o { entries = w.entries })
        (write_tournament id (stored true (record w { entries = s.entries })) st.tournaments);
}

abbrev pub write_config : World → Store → Store
write_config w st = record st {
  config = w.config;
  config_lamports = w.config_lamports;
  wallets = w.wallets;
}

-- A transaction with one instruction: on the tournament at an id, `finalize_tournament` on it, or
-- `close_reveal` on it with a `refund_entry` of the tournament at another id, which the constraints
-- on its accounts allow.
pub data Transaction : Type 0 where
  calls : ℕ → Instruction → Transaction
  finalizes : ℕ → Pubkey → ℤ → ℕ → Transaction
  refunds_from :
      (id other : ℕ) (signer : Pubkey) (now : ℤ) (hashes : List ℕ) (entry player : Option Pubkey)
      → Transaction

module _ (rt : Runtime) where
  -- `init` of the next tournament's account needs its address to be free.
  unfoldable pub open_next : NextTournament → Store → Outcome Store
  open_next next st = elim (find_tournament next.tournament.id st.tournaments) [
    | some s ↦ err constraint_violated
    | none ↦ ok (record st {
      tournaments =
          record {
            tournament = next.tournament;
            lamports = next.lamports;
            entries = [];
            is_open = true;
          }
          ∷ st.tournaments;
    })
  ]

  unfoldable pub process : Transaction → Store → Outcome Store
  process (calls id i) st =
      if on_config i
      then (do w ← execute rt i (view st no_tournament); ok (write_config w st))
      else (do
        s ← ok_or (find_tournament id st.tournaments) constraint_violated
        w ← execute rt i (view st s)
        ok (write_back id (not (closes i)) w st))
  process (finalizes id signer now bump) st = do
    s ← ok_or (find_tournament id st.tournaments) constraint_violated
    (w, next) ← finalize_tournament rt signer now bump (view st s)
    open_next next (write_back id true w st)
  process (refunds_from id other signer now hashes entry player) st = do
    require (not (id == other)) constraint_violated
    s ← ok_or (find_tournament id st.tournaments) constraint_violated
    o ← ok_or (find_tournament other st.tournaments) constraint_violated
    w ←
        execute rt (closes_reveal signer now hashes entry player)
          (record (view st s) { entries = o.entries })
    ok (write_both id s other o w st)

  unfoldable pub process_all : List Transaction → Store → Outcome Store
  process_all [] st = ok st
  process_all (t ∷ ts) st = process t st >>= process_all ts

  -- The one-time setup: the admin pays the rent of the config and of tournament 0.
  unfoldable pub initialize : Pubkey → InitializeConfigParams → ℤ → ℕ → ℕ → Wallets → Outcome Store
  initialize admin p now bump tournament_bump wallets = do
    let config_rent = rt.minimum_balance config_len
    let tournament_rent = rt.minimum_balance base_space
    ws₁ ← ok_or (debit admin config_rent wallets) constraint_violated
    ws₂ ← ok_or (debit admin tournament_rent ws₁) constraint_violated
    (c, t) ← initialize_config admin p now bump tournament_bump
    ok (record {
      config = c;
      config_lamports = config_rent;
      tournaments =
          record { tournament = t; lamports = tournament_rent; entries = []; is_open = true } ∷ [];
      wallets = ws₂;
    })

-- The lamports of all the accounts.
abbrev pub stored_lamports : List Stored → ℕ
stored_lamports [] = 0
stored_lamports (s ∷ ss) = (s.lamports + entry_lamports s.entries) + stored_lamports ss

abbrev pub store_lamports : Store → ℕ
store_lamports st = st.config_lamports + stored_lamports st.tournaments + held st.wallets
