-- ===== src/Arena/Payout/Steps.antt =====
-- The instructions of the payout phase of programs/prisoners-arena, and what the account still owes.
use prisoners_arena_program.Base.{
  ℕ, ◌+◌, ◌-◌, ◌*◌, ◌≤◌, ◌≡◌, refl, arith, true, some, ok, min, leb, ◌∙◌, Bool-cases, Option-cases,
  Result-cases, inl, inr, ◌⊎◌,
}
use prisoners_arena_program.Base.Int.{ℤ}
use prisoners_arena_program.Arena.State.{Pubkey, Tournament, payout, data_len}
use prisoners_arena_program.Arena.Ledger.{checked_sub}
use prisoners_arena_program.Arena.World.{
  Runtime, World, EntryAccount, find_entry, remove_entry, spare, take_from_tournament,
}
use prisoners_arena_program.Arena.Player.{share, claim_payout}
use prisoners_arena_program.Arena.Finalize.{collect_fees}
use prisoners_arena_program.Arena.Closing.{is_unpaid_winner, settle, close_entry}
use prisoners_arena_program.Arena.Payout.{SamePrizes, IsCovered}
use prisoners_arena_program.Arena.Payout.Counting.{hit, qualified-remove}

-- One entry is closed: the account pays at most a share, and only for a winner.
pub record Pays (rt : Runtime) (player : Pubkey) (w w' : World) : Type 0 where
  pub account : EntryAccount
  pub found : find_entry player w.entries ≡ some account
  pub now : w.tournament.state ≡ payout
  pub state : w'.tournament.state ≡ payout
  pub prizes : SamePrizes w.tournament w'.tournament
  pub players : w'.tournament.players ≡ w.tournament.players
  pub entries : w'.entries ≡ remove_entry player w.entries
  pub paid : ℕ
  pub most : paid ≤ share w.tournament * hit w.tournament.min_winning_score account.entry.score
  pub lamports : w'.tournament_lamports ≡ w.tournament_lamports - paid

pub same_share : (t t' : Tournament) → SamePrizes t t' → share t' ≡ share t
unfolding share
same_share t t' p = rw (p.pool, p.count) refl

owed_less :
    (s total left h spare paid : ℕ)
    → left + h ≡ total
    → paid ≤ s * h
    → s * total ≤ spare
    → s * left ≤ spare - paid
owed_less s total left h spare paid e m c = grind arith

pub Pays-IsCovered :
    (rt : Runtime) (player : Pubkey) (w w' : World)
    → IsCovered rt w
    → Pays rt player w w'
    → IsCovered rt w'
unfolding share data_len
Pays-IsCovered rt player w w' c p =
    let threshold = w.tournament.min_winning_score in
    let kept = qualified-remove threshold player w.entries p.found in
    let less =
      owed_less (share w.tournament) _ _ _ w.tournament_lamports p.paid kept p.most c.covered in
    record {
      now = p.state;
      covered =
          rw (same_share w.tournament w'.tournament p.prizes, p.prizes.threshold, p.entries)
            (omega (arith, less, p.lamports));
    }

pub claim_payout-Pays :
    (rt : Runtime) (player : Pubkey) (now : ℤ) (w w' : World)
    → claim_payout player now w ≡ ok w'
    → Pays rt player w w'
unfolding claim_payout take_from_tournament checked_sub
claim_payout-Pays rt player now w w' h = elim (Option-cases (find_entry player w.entries)) [
  | inl e ↦ absurd (grind arith)
  | inr (a, f) ↦
      (let reaches : leb w.tournament.min_winning_score a.entry.score ≡ true = grind arith in
        record {
          account = a;
          found = f;
          now = grind arith;
          state = grind arith;
          prizes = record {
            pool = grind arith;
            count = grind arith;
            threshold = grind arith;
            started = grind arith;
          };
          players = grind arith;
          entries = grind arith;
          paid = share w.tournament;
          most = rw reaches (omega arith);
          lamports = grind arith;
        })
]

-- What `settle` takes from the account.
settle-pays :
    (rt : Runtime) (player : Pubkey) (now : ℤ) (w w' : World)
    → settle rt player now w ≡ ok w'
    → SamePrizes w.tournament w'.tournament
      × (w'.tournament.players ≡ w.tournament.players)
      × (w'.tournament.state ≡ w.tournament.state)
      × (w'.tournament_lamports ≡ w.tournament_lamports - min (share w.tournament) (spare rt w))
      × (w'.entries ≡ w.entries)
unfolding settle collect_fees take_from_tournament checked_sub
settle-pays rt player now w w' h = (
  record {
    pool = grind arith;
    count = grind arith;
    threshold = grind arith;
    started = grind arith;
  },
  grind arith,
  grind arith,
  grind arith,
  grind arith,
)

-- What `close_entry` does after that, or at once.
closes_rest :
    (rt : Runtime) (signer player : Pubkey) (now : ℤ) (w w' : World)
    → close_entry rt signer player now w ≡ ok w'
    → (a : EntryAccount) × (w₁ : World) × (find_entry player w.entries ≡ some a)
      × (w.tournament.state ≡ payout)
      × (((is_unpaid_winner w.tournament a.entry ≡ true) × (settle rt player now w ≡ ok w₁))
          ⊎ (w₁ ≡ w))
      × (w'.tournament
          ≡ record w₁.tournament { entries_remaining = w'.tournament.entries_remaining })
      × (w'.tournament_lamports ≡ w₁.tournament_lamports)
      × (w'.entries ≡ remove_entry player w₁.entries)
unfolding close_entry checked_sub
closes_rest rt signer player now w w' h = elim (Option-cases (find_entry player w.entries)) [
  | inl e ↦ absurd (grind arith)
  | inr (a, f) ↦ elim (Bool-cases (is_unpaid_winner w.tournament a.entry)) [
    | inr other ↦ (a, w, f, grind arith, inr refl, grind arith, grind arith, grind arith)
    | inl winner ↦ elim (Result-cases (settle rt player now w)) [
      | inr e ↦ absurd (grind arith)
      | inl (w₁, e) ↦
          (a, w₁, f, grind arith, inl (winner, e), grind arith, grind arith, grind arith)
    ]
  ]
]

unpaid_winner-reaches :
    (t : Tournament) (a : EntryAccount)
    → is_unpaid_winner t a.entry ≡ true
    → leb t.min_winning_score a.entry.score ≡ true
unfolding is_unpaid_winner
unpaid_winner-reaches t a h = ground arith

pub close_entry-Pays :
    (rt : Runtime) (signer player : Pubkey) (now : ℤ) (w w' : World)
    → close_entry rt signer player now w ≡ ok w'
    → Pays rt player w w'
close_entry-Pays rt signer player now w w' h =
    let (a, w₁, f, st, step, et, el, ee) = closes_rest rt signer player now w w' h in
    elim step [
      | inr same ↦ record {
        account = a;
        found = f;
        now = st;
        state = rw (et, same) st;
        prizes = record {
          pool = rw (et, same) refl;
          count = rw (et, same) refl;
          threshold = rw (et, same) refl;
          started = rw (et, same) refl;
        };
        players = rw (et, same) refl;
        entries = rw (ee, same) refl;
        paid = 0;
        most = omega arith;
        lamports = rw (el, same) (omega arith);
      }
      | inl (winner, paid) ↦
          (let (prizes, players, state, lamports, entries) = settle-pays rt player now w w₁ paid in
            let reaches = unpaid_winner-reaches w.tournament a winner in
            record {
              account = a;
              found = f;
              now = st;
              state = rw et (state ∙ st);
              prizes = record {
                pool = rw et prizes.pool;
                count = rw et prizes.count;
                threshold = rw et prizes.threshold;
                started = rw et prizes.started;
              };
              players = rw et players;
              entries = rw (ee, entries) refl;
              paid = min (share w.tournament) (spare rt w);
              most = rw reaches (omega arith);
              lamports = rw el lamports;
            })
    ]
