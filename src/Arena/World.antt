-- ===== src/Arena/World.antt =====
-- The accounts that the instructions of programs/prisoners-arena work on: the config, one tournament
-- with the entries of its players, and wallets, each with its lamports; and what the program takes
-- from the Solana runtime.
use prisoners_arena_program.Base.{
  ℕ, ◌+◌, ◌-◌, ◌^◌, Option, none, some, List, [], ◌∷◌, ok, err, ok_or, ltb, ◌==◌, if◌then◌else◌,
  require, ◌>>◌, set, length,
}
use prisoners_arena_program.Arena.Error.{Outcome, panicked, unbalanced, constraint_violated}
use prisoners_arena_program.Arena.State.{Pubkey, Config, Tournament, Entry, data_len}
use prisoners_arena_program.Arena.Ledger.{Wallets, held, credit, debit, checked_sub}

-- Code outside of the repository: the rent of an account by its length, what Anchor charges when an
-- account grows to a length and holds some lamports, and SHA-256.
pub record Runtime : Type 0 where
  pub minimum_balance : ℕ → ℕ
  pub realloc_charge : ℕ → ℕ → ℕ
  pub hash : List ℕ → List ℕ

-- An entry account, at the address of its player.
pub record EntryAccount : Type 0 where
  pub entry : Entry
  pub lamports : ℕ

pub record World : Type 0 where
  pub config : Config
  pub config_lamports : ℕ
  pub tournament : Tournament
  pub tournament_lamports : ℕ
  pub entries : List EntryAccount
  pub wallets : Wallets

unfoldable pub find_entry : Pubkey → List EntryAccount → Option EntryAccount
find_entry player [] = none
find_entry player (a ∷ as') = if a.entry.player == player then some a else find_entry player as'

-- The account is closed: its data is gone. Its lamports are moved by the caller.
unfoldable pub remove_entry : Pubkey → List EntryAccount → List EntryAccount
remove_entry player [] = []
remove_entry player (a ∷ as') =
    if a.entry.player == player then as' else a ∷ remove_entry player as'

unfoldable pub write_entry : Pubkey → Entry → List EntryAccount → List EntryAccount
write_entry player e [] = []
write_entry player e (a ∷ as') =
    if a.entry.player == player then record a { entry = e } ∷ as' else a ∷ write_entry player e as'

-- `checked_add` and `checked_mul`
unfoldable pub checked_u64 : ℕ → Option ℕ
checked_u64 n = if ltb n (2 ^ 64) then some n else none

unfoldable pub checked_u32 : ℕ → Option ℕ
checked_u32 n = if ltb n (2 ^ 32) then some n else none

-- Lamports out of the tournament's account. A `-=` below zero leaves the instruction unbalanced, and
-- the runtime aborts the transaction.
unfoldable pub take_from_tournament : ℕ → World → Outcome World
take_from_tournament amount w = elim (checked_sub w.tournament_lamports amount) [
  | none ↦ err unbalanced
  | some rest ↦ ok (record w { tournament_lamports = rest })
]

abbrev pub pay_wallet : Pubkey → ℕ → World → World
pay_wallet key amount w = record w { wallets = credit key amount w.wallets }

abbrev pub pay_config : ℕ → World → World
pay_config amount w = record w { config_lamports = w.config_lamports + amount }

abbrev pub entry_lamports : List EntryAccount → ℕ
entry_lamports [] = 0
entry_lamports (a ∷ as') = a.lamports + entry_lamports as'

-- `vec[index] = value`, which panics out of range.
abbrev pub assign : {A : Type 0} → List A → ℕ → A → Outcome (List A)
assign xs i v = do require (ltb i (length xs)) panicked; ok (set xs i v)

-- `lamports().saturating_sub(rent.minimum_balance(data_len))` for the tournament's account
abbrev pub spare : Runtime → World → ℕ
spare rt w = w.tournament_lamports - rt.minimum_balance (data_len w.tournament)

-- The entry account of a player, which has to exist.
abbrev pub opened : Pubkey → World → Outcome EntryAccount
opened player w = ok_or (find_entry player w.entries) constraint_violated

-- Anchor's `close = player`, after the handler: the lamports of the entry go to the wallet.
abbrev pub close_to : Pubkey → ℕ → World → World
close_to player lamports w = record w {
  entries = remove_entry player w.entries;
  wallets = credit player lamports w.wallets;
}

-- A payment by a wallet, of rent or of a stake.
abbrev pub charge : Pubkey → ℕ → World → Outcome World
charge key amount w = elim (debit key amount w.wallets) [
  | none ↦ err constraint_violated
  | some ws ↦ ok (record w { wallets = ws })
]

-- All the lamports of the accounts.
abbrev pub total_lamports : World → ℕ
total_lamports w =
    w.config_lamports + w.tournament_lamports + entry_lamports w.entries + held w.wallets
