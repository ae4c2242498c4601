-- ===== src/Arena/Sound/Pairs.antt =====
-- A match of `run_matches` in programs/prisoners-arena/src/instructions/tournament.rs, step by step.
use prisoners_arena_program.Base.{
  ℕ, ◌+◌, ◌≡◌, ◌≢◌, ◌∙◌, ap, arith, some, List, ok, get_elem?, set, ◌⊎◌, ◌||◌, Bool-cases, inl, inr,
  Option-cases, Result-cases,
}
use prisoners_arena_program.Game.{run_match}
use prisoners_arena_program.Pairing.{get_pairing_for_match}
use prisoners_arena_program.Arena.State.{Pubkey, Entry, is_default}
use prisoners_arena_program.Arena.World.{EntryAccount, World, find_entry, write_entry, checked_u32}
use prisoners_arena_program.Arena.Sound.Seats.{get_elem?-set_other}
use prisoners_arena_program.Arena.Running.{
  find_entry_account, strategy_of, add_result, add_score, play_pair, run_one, complete_one,
}

-- An entry with another score.
pub record Scored (n : ℕ) (e e' : Entry) : Type 0 where
  pub player : e'.player ≡ e.player
  pub index : e'.index ≡ e.index
  pub revealed : e'.revealed ≡ e.revealed
  pub score : e'.score ≡ e.score + n

pub add_result-Scored : (n : ℕ) (e e' : Entry) → add_result n e ≡ ok e' → Scored n e e'
unfolding add_result checked_u32
add_result-Scored n e e' h = record {
  player = grind arith;
  index = grind arith;
  revealed = grind arith;
  score = grind arith;
}

-- One score is raised.
pub add_score-ok :
    (i n : ℕ) (ss ss' : List ℕ)
    → add_score i n ss ≡ ok ss'
    → (old : ℕ) × (get_elem? ss i ≡ some old) × (ss' ≡ set ss i (old + n))
unfolding add_score checked_u32
add_score-ok i n ss ss' h = elim (Option-cases (get_elem? ss i)) [
  | inl e ↦ absurd (grind arith)
  | inr (x, e) ↦ (x, e, grind arith)
]

pub add_score-other :
    (i n j : ℕ) (ss ss' : List ℕ)
    → add_score i n ss ≡ ok ss'
    → i ≢ j
    → get_elem? ss' j ≡ get_elem? ss j
add_score-other i n j ss ss' h other =
    let (old, _, same) = add_score-ok i n ss ss' h in
    ap (λ xs. get_elem? xs j) same ∙ get_elem?-set_other ss i j (old + n) other

pub find_entry_account-ok :
    (passed : List Pubkey) (p : Pubkey) (w : World) (e : Entry)
    → find_entry_account passed p w ≡ ok e
    → (a : EntryAccount) × (find_entry p w.entries ≡ some a) × (a.entry ≡ e)
unfolding find_entry_account
find_entry_account-ok passed p w e h = elim (Option-cases (find_entry p w.entries)) [
  | inl f ↦ absurd (grind arith)
  | inr (a, f) ↦ (a, f, grind arith)
]

-- The tournament but for its scores and its count of matches.
pub record SameTerms (w w' : World) : Type 0 where
  pub players : w'.tournament.players ≡ w.tournament.players
  pub strategies : w'.tournament.strategies ≡ w.tournament.strategies
  pub participants : w'.tournament.participant_count ≡ w.tournament.participant_count
  pub entries_remaining : w'.tournament.entries_remaining ≡ w.tournament.entries_remaining
  pub reveals : w'.tournament.reveals_completed ≡ w.tournament.reveals_completed
  pub state : w'.tournament.state ≡ w.tournament.state
  pub k : w'.tournament.matches_per_player ≡ w.tournament.matches_per_player
  pub stake : w'.tournament.stake ≡ w.tournament.stake
  pub pool : w'.tournament.pool ≡ w.tournament.pool
  pub config : w'.config ≡ w.config

-- What an accepted `play_pair` has found and done.
pub record Pairs (passed : List Pubkey) (x y : ℕ) (a b : Pubkey) (w w' : World) : Type 0 where
  pub before_a : Entry
  pub before_b : Entry
  pub after_a : Entry
  pub after_b : Entry
  pub score_a : ℕ
  pub score_b : ℕ
  pub between : List ℕ
  pub found_a : find_entry_account passed a w ≡ ok before_a
  pub found_b : find_entry_account passed b w ≡ ok before_b
  pub index_a : before_a.index ≡ x
  pub index_b : before_b.index ≡ y
  pub result_a : add_result score_a before_a ≡ ok after_a
  pub result_b : add_result score_b before_b ≡ ok after_b
  pub gained_a : add_score x score_a w.tournament.scores ≡ ok between
  pub gained_b : add_score y score_b between ≡ ok w'.tournament.scores
  pub entries : w'.entries ≡ write_entry b after_b (write_entry a after_a w.entries)
  pub same : SameTerms w w'

pub play_pair-Pairs :
    (passed : List Pubkey) (i x y : ℕ) (a b : Pubkey) (w w' : World)
    → play_pair passed i x y a b w ≡ ok w'
    → Pairs passed x y a b w w'
unfolding play_pair
play_pair-Pairs passed i x y a b w w' h = elim (Result-cases (find_entry_account passed a w)) [
  | inr e ↦ absurd (grind arith)
  | inl (ea, fa) ↦ elim (Result-cases (find_entry_account passed b w)) [
    | inr e ↦ absurd (grind arith)
    | inl (eb, fb) ↦ elim (Result-cases (strategy_of ea)) [
      | inr e ↦ absurd (grind arith)
      | inl (sa, ga) ↦ elim (Result-cases (strategy_of eb)) [
        | inr e ↦ absurd (grind arith)
        | inl (sb, gb) ↦
            (let r =
                run_match sa sb w.tournament.randomness_seed i w.tournament.participant_count in
              elim (Result-cases (add_result r.total_score_a ea)) [
                | inr e ↦ absurd (grind arith)
                | inl (ea', ra) ↦ elim (Result-cases (add_result r.total_score_b eb)) [
                  | inr e ↦ absurd (grind arith)
                  | inl (eb', rb) ↦
                      elim (Result-cases (add_score x r.total_score_a w.tournament.scores)) [
                        | inr e ↦ absurd (grind arith)
                        | inl (ss, ha) ↦ elim (Result-cases (add_score y r.total_score_b ss)) [
                          | inr e ↦ absurd (grind arith)
                          | inl (ss', hb) ↦
                              (let final : w'.tournament.scores ≡ ss' = grind arith in
                                record {
                                  before_a = ea;
                                  before_b = eb;
                                  after_a = ea';
                                  after_b = eb';
                                  score_a = r.total_score_a;
                                  score_b = r.total_score_b;
                                  between = ss;
                                  found_a = fa;
                                  found_b = fb;
                                  index_a = grind arith;
                                  index_b = grind arith;
                                  result_a = ra;
                                  result_b = rb;
                                  gained_a = ha;
                                  gained_b = rw final hb;
                                  entries = grind arith;
                                  same = record {
                                    players = grind arith;
                                    strategies = grind arith;
                                    participants = grind arith;
                                    entries_remaining = grind arith;
                                    reveals = grind arith;
                                    state = grind arith;
                                    k = grind arith;
                                    stake = grind arith;
                                    pool = grind arith;
                                    config = grind arith;
                                  };
                                })
                        ]
                      ]
                ]
              ])
      ]
    ]
  ]
]

pub run_one-ok :
    (passed : List Pubkey) (i : ℕ) (w w' : World)
    → run_one passed i w ≡ ok w'
    → (w' ≡ complete_one w)
      ⊎ ((x y : ℕ) × (a b : Pubkey) × (get_pairing_for_match w.tournament.participant_count
              w.tournament.matches_per_player w.tournament.randomness_seed i
            ≡ some (x, y))
          × (play_pair passed i x y a b w ≡ ok w'))
unfolding run_one
run_one-ok passed i w w' h =
    elim (Option-cases (
      get_pairing_for_match w.tournament.participant_count w.tournament.matches_per_player
        w.tournament.randomness_seed i)) [
          | inl e ↦ absurd (grind arith)
          | inr ((x, y), e) ↦ elim (Option-cases (get_elem? w.tournament.players x)) [
            | inl f ↦ absurd (grind arith)
            | inr (a, f) ↦ elim (Option-cases (get_elem? w.tournament.players y)) [
              | inl g ↦ absurd (grind arith)
              | inr (b, g) ↦ elim (Bool-cases (is_default a || is_default b)) [
                | inl skip ↦ inl (grind arith)
                | inr both ↦ inr (x, y, a, b, e, grind arith)
              ]
            ]
          ]
        ]
