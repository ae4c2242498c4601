-- ===== src/Arena/Store/Synced.antt =====
-- The scores in the entries of all the tournaments of programs/prisoners-arena, from the setup on.
use prisoners_arena_program.Base.{ℕ, ◌^◌, ◌<◌, ◌≡◌, some, List, ok, get_elem?}
use prisoners_arena_program.Base.Int.{ℤ}
use prisoners_arena_program.Arena.State.{Pubkey}
use prisoners_arena_program.Arena.Ledger.{Wallets}
use prisoners_arena_program.Arena.World.{Runtime, EntryAccount, find_entry}
use prisoners_arena_program.Arena.Admin.{InitializeConfigParams}
use prisoners_arena_program.Arena.Store.{
  Stored, Store, Transaction, find_tournament, process_all, initialize,
}
use prisoners_arena_program.Arena.Store.All.{All-find}
use prisoners_arena_program.Arena.Store.Invariant.{IsInvariant, initialize-process_all-All}
use prisoners_arena_program.Arena.Store.Sound.{AllOwnTransactions}
use prisoners_arena_program.Arena.Sync.{IsSynced}
use prisoners_arena_program.Arena.Sync.Entries.{AllTell-find}
use prisoners_arena_program.Arena.Sync.Drawing.{finalize_tournament-IsSynced}
use prisoners_arena_program.Arena.Sync.Reach.{execute-IsSynced, new_tournament-IsSynced}

IsSynced-IsInvariant : (rt : Runtime) → IsInvariant rt IsSynced
IsSynced-IsInvariant rt = record {
  kept = execute-IsSynced rt;
  finalized = finalize_tournament-IsSynced rt;
  fresh = new_tournament-IsSynced;
}

-- From an accepted `initialize_config` on, through any sequence of accepted transactions on any of
-- the tournaments, finalizations included, in which `close_reveal` refunds no entry of another
-- tournament, the score in every player's entry is the one that the tournament keeps at the entry's
-- index.
pub score-initialize-process_all :
    (rt : Runtime) (admin : Pubkey) (p : InitializeConfigParams) (now : ℤ) (bump tb : ℕ)
    (wallets : Wallets) (st st' : Store) (ts : List Transaction) (id : ℕ) (player : Pubkey)
    (s : Stored) (a : EntryAccount)
    → p.max_participants < 2 ^ 16
    → initialize rt admin p now bump tb wallets ≡ ok st
    → AllOwnTransactions ts
    → process_all rt ts st ≡ ok st'
    → find_tournament id st'.tournaments ≡ some s
    → find_entry player s.entries ≡ some a
    → get_elem? s.tournament.scores a.entry.index ≡ some a.entry.score
score-initialize-process_all rt admin p now bump tb wallets st st' ts id player s a small h typed g
      f e =
    let all =
      initialize-process_all-All rt IsSynced (IsSynced-IsInvariant rt) admin p now bump tb wallets
        st st' ts small h typed g in
    let synced = All-find IsSynced id st'.tournaments {s = s} all f in
    AllTell-find s.tournament.scores player s.entries {a = a} synced.told e
