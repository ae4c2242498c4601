-- ===== src/Arena/Payout/Claims.antt =====
-- The claims of the winners of programs/prisoners-arena after the finalization.
use prisoners_arena_program.Base.{
  ℕ, ◌*◌, ◌≤◌, ◌≡◌, refl, arith, some, List, [], ◌∷◌, true, ok, length, leb, ◌∙◌, Result-cases, inl,
  inr,
}
use prisoners_arena_program.Base.Int.{ℤ, ltb_ℤ, add_i64}
use prisoners_arena_program.Arena.State.{Pubkey, Tournament, claim_expiry_seconds}
use prisoners_arena_program.Arena.Ledger.{credit, checked_sub}
use prisoners_arena_program.Arena.World.{
  Runtime, World, EntryAccount, find_entry, take_from_tournament,
}
use prisoners_arena_program.Arena.Player.{share, claim_payout}
use prisoners_arena_program.Arena.Finalize.{NextTournament, finalize_tournament}
use prisoners_arena_program.Arena.Closing.{is_unpaid_winner}
use prisoners_arena_program.Arena.Session.{Instruction, execute_all}
use prisoners_arena_program.Arena.Sound.{IsSound, IsSoundWorld}
use prisoners_arena_program.Arena.Sound.Finalizing.{finalize_tournament-IsSoundWorld}
use prisoners_arena_program.Arena.Opening.Start.{AllTyped}
use prisoners_arena_program.Arena.Sync.{IsSynced}
use prisoners_arena_program.Arena.Payout.{SamePrizes, IsCovered}
use prisoners_arena_program.Arena.Payout.Counting.{hit, qualified, qualified-remove}
use prisoners_arena_program.Arena.Payout.Finalized.{finalize_tournament-IsCovered}
use prisoners_arena_program.Arena.Payout.Steps.{same_share}
use prisoners_arena_program.Arena.Payout.Owing.{Owes, execute_all-Owes}

entered-find :
    (player : Pubkey) (es : List EntryAccount) {a : EntryAccount}
    → find_entry player es ≡ some a
    → 1 ≤ length es
unfolding find_entry
entered-find player [] e = cc
entered-find player (x ∷ es) e = omega arith

one_of : (s n total : ℕ) → 1 ≤ n → s * n ≤ total → s ≤ total
one_of s n total h c = grind arith

-- One share is there for a winner who has an entry.
share-covered :
    (rt : Runtime) (w : World) (player : Pubkey) {a : EntryAccount}
    → IsCovered rt w
    → find_entry player w.entries ≡ some a
    → leb w.tournament.min_winning_score a.entry.score ≡ true
    → share w.tournament ≤ w.tournament_lamports
share-covered rt w player {a} c f reaches =
    let threshold = w.tournament.min_winning_score in
    let one : hit threshold a.entry.score ≡ 1 = rw reaches refl in
    let counted : 1 ≤ qualified threshold w.entries =
      omega (arith, one, qualified-remove threshold player w.entries f) in
    omega (arith, one_of (share w.tournament) _ w.tournament_lamports counted c.covered)

-- The claim of a winner is accepted where the account covers the shares.
claim_payout-accepted :
    (rt : Runtime) (player : Pubkey) (now : ℤ) (w : World) {a : EntryAccount}
    → IsSound w.tournament w.entries
    → IsCovered rt w
    → find_entry player w.entries ≡ some a
    → is_unpaid_winner w.tournament a.entry ≡ true
    → ltb_ℤ now (add_i64 w.tournament.payout_started_at claim_expiry_seconds) ≡ true
    → (w' : World) × (claim_payout player now w ≡ ok w')
      × (w'.wallets ≡ credit player a.lamports (credit player (share w.tournament) w.wallets))
unfolding claim_payout take_from_tournament checked_sub is_unpaid_winner
claim_payout-accepted rt player now w {a} s c f winner soon =
    let some_left : 1 ≤ w.tournament.entries_remaining =
      omega (arith, s.entered, entered-find player w.entries f) in
    let enough = share-covered rt w player c f (grind arith) in
    elim (Result-cases (claim_payout player now w)) [
      | inl (w', e) ↦ (w', e, grind arith)
      | inr (e, refused) ↦ absurd (grind arith)
    ]

same_winner :
    (t t' : Tournament) (a : EntryAccount)
    → SamePrizes t t'
    → is_unpaid_winner t' a.entry ≡ is_unpaid_winner t a.entry
unfolding is_unpaid_winner
same_winner t t' a p = rw (p.count, p.threshold) refl

-- Where the account of a well-formed tournament whose entries tell its scores holds the pool when
-- `finalize_tournament` is accepted, and any accepted instructions follow: the handler of
-- `claim_payout` accepts the claim of an unpaid winner whose entry is still there, before it expires,
-- and pays the share of the finalization and the lamports of the entry.
pub claim_payout-finalize_tournament :
    (rt : Runtime) (operator player : Pubkey) (now later : ℤ) (bump : ℕ) (w u v : World)
    (n : NextTournament) (is : List Instruction) {a : EntryAccount}
    → IsSoundWorld w
    → IsSynced w.tournament w.entries
    → w.tournament.pool ≤ w.tournament_lamports
    → finalize_tournament rt operator now bump w ≡ ok (u, n)
    → AllTyped is
    → execute_all rt is u ≡ ok v
    → find_entry player v.entries ≡ some a
    → is_unpaid_winner u.tournament a.entry ≡ true
    → ltb_ℤ later (add_i64 u.tournament.payout_started_at claim_expiry_seconds) ≡ true
    → (w' : World) × (claim_payout player later v ≡ ok w')
      × (w'.wallets ≡ credit player a.lamports (credit player (share u.tournament) v.wallets))
claim_payout-finalize_tournament rt operator player now later bump w u v n is {a} s y funded h typed
      g f winner soon =
    let t = u.tournament in
    let first : Owes rt t u = record {
      covered = finalize_tournament-IsCovered rt operator now bump w u n s.sound y funded h;
      prizes = record { pool = refl; count = refl; threshold = refl; started = refl };
    } in
    let s₁ = finalize_tournament-IsSoundWorld rt operator now bump w u n s h in
    let (s₂, o) = execute_all-Owes rt t is u v typed s₁ first g in
    let (w', accepted, paid) =
      claim_payout-accepted rt player later v s₂.sound o.covered f
        (same_winner t v.tournament a o.prizes ∙ winner) (rw o.prizes.started soon) in
    (w', accepted, rw (← same_share t v.tournament o.prizes) paid)
