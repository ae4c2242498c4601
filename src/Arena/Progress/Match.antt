-- ===== src/Arena/Progress/Match.antt =====
-- One match of `run_matches` of programs/prisoners-arena.
use prisoners_arena_program.Base.{
  ℕ, ◌+◌, ◌*◌, ◌^◌, ◌≤◌, ◌<◌, ◌≡◌, refl, arith, true, ◌||◌, some, List, ok, length, get_elem?, set,
  length-set, Bool-cases, inl, inr, ◌==◌, ap, Result-cases, add_u32,
}
use prisoners_arena_program.Strategy.{PlayerStrategy}
use prisoners_arena_program.Game.{run_match}
use prisoners_arena_program.Game.Totals.{run_match-total_le}
use prisoners_arena_program.Pairing.{get_pairing_for_match, calculate_match_count}
use prisoners_arena_program.Pairing.Schedule.{get_pairing_for_match_total, calculate_match_count_le}
use prisoners_arena_program.Arena.State.{Pubkey, is_default, Entry}
use prisoners_arena_program.Arena.World.{World, EntryAccount, find_entry, write_entry, checked_u32}
use prisoners_arena_program.Arena.Running.{
  is_passed, find_entry_account, strategy_of, add_result, add_score, play_pair, run_one,
  complete_one,
}
use prisoners_arena_program.Arena.Sound.{IsSoundWorld}
use prisoners_arena_program.Arena.Sound.Slots.{active-le-length}
use prisoners_arena_program.Arena.Sound.Occupied.{find_entry-Occupied}
use prisoners_arena_program.Arena.Sound.Playing.{run_one-IsSoundWorld}
use prisoners_arena_program.Arena.Progress.{IsPlaying, PassesAll}
use prisoners_arena_program.Arena.Progress.Lookup.{
  get_elem?-inside, AllLe, AllLe-weaken, AllLe-set, AllLe-get_elem?, IsPlayable, AllPlayable,
  AllPlayable-weaken, AllPlayable-find, AllPlayable-write,
}

find_entry_account-runs :
    (passed : List Pubkey) (p : Pubkey) (w : World) {a : EntryAccount}
    → is_passed p passed ≡ true
    → find_entry p w.entries ≡ some a
    → find_entry_account passed p w ≡ ok a.entry
unfolding find_entry_account
find_entry_account-runs passed p w h f = grind arith

strategy_of-runs :
    (e : Entry) → e.bytecode_len ≤ length e.bytecode → (s : PlayerStrategy) × (strategy_of e ≡ ok s)
unfolding strategy_of
strategy_of-runs e h = elim (Result-cases (strategy_of e)) [
  | inl (s, f) ↦ (s, f)
  | inr (x, f) ↦ absurd (grind arith)
]

-- An entry takes on the score of a match, with its program as it is.
add_result-runs :
    (n b : ℕ) (e : Entry)
    → n ≤ 250
    → b + 250 < 2 ^ 32
    → IsPlayable b e
    → (e' : Entry) × (add_result n e ≡ ok e') × IsPlayable (b + 250) e'
unfolding add_result checked_u32
add_result-runs n b e h room p = elim (Result-cases (add_result n e)) [
  | inr (x, f) ↦ absurd (grind (arith, p.low))
  | inl (e', f) ↦ (e', f, record { low = grind (arith, p.low); fits = grind (arith, p.fits) })
]

add_score-runs :
    (i n b : ℕ) (ss : List ℕ)
    → i < length ss
    → n ≤ 250
    → b + 250 < 2 ^ 32
    → AllLe b ss
    → (ss' : List ℕ) × (add_score i n ss ≡ ok ss') × (length ss' ≡ length ss) × AllLe (b + 250) ss'
unfolding add_score checked_u32
add_score-runs i n b ss inside h room p =
    let (x, f) = get_elem?-inside ss i inside in
    let small = AllLe-get_elem? b ss i p f in
    (
      set ss i (x + n),
      grind arith,
      length-set ss i (x + n),
      AllLe-set (b + 250) ss i (x + n) (omega arith) (AllLe-weaken b (b + 250) ss (omega arith) p),
    )

-- The world in which a match has ended, with these scores and entries.
abbrev played : List ℕ → List EntryAccount → World → World
played ss es w =
    complete_one (record w { tournament = record w.tournament { scores = ss }; entries = es })

-- An active player with an entry in its place, whose account is passed.
record Ready (passed : List Pubkey) (b i : ℕ) (p : Pubkey) (w : World) : Type 0 where
  here : is_passed p passed ≡ true
  account : EntryAccount
  found : find_entry p w.entries ≡ some account
  placed : account.entry.index ≡ i
  playable : IsPlayable b account.entry
  inside : i < length w.tournament.scores

play_pair-runs :
    (passed : List Pubkey) (i x y : ℕ) (p q : Pubkey) (b : ℕ) (w : World)
    → Ready passed b x p w
    → Ready passed b y q w
    → b + 500 < 2 ^ 32
    → AllLe b w.tournament.scores
    → AllPlayable b w.entries
    → (ss : List ℕ) × (es : List EntryAccount) × (play_pair passed i x y p q w
        ≡ ok (played ss es w))
      × AllLe (b + 500) ss
      × AllPlayable (b + 500) es
unfolding play_pair
play_pair-runs passed i x y p q b w rp rq room low playable =
    let ea = rp.account.entry in
    let eb = rq.account.entry in
    let (sa, fa) = strategy_of-runs ea rp.playable.fits in
    let (sb, fb) = strategy_of-runs eb rq.playable.fits in
    let m = run_match sa sb w.tournament.randomness_seed i w.tournament.participant_count in
    let (small_a, small_b) =
      run_match-total_le sa sb w.tournament.randomness_seed i w.tournament.participant_count in
    let (ea', ga, pa) = add_result-runs m.total_score_a b ea small_a (omega arith) rp.playable in
    let (eb', gb, pb) = add_result-runs m.total_score_b b eb small_b (omega arith) rq.playable in
    let (ss, ha, la, ba) =
      add_score-runs x m.total_score_a b w.tournament.scores rp.inside small_a (omega arith) low in
    let (ss', hb, lb, bb) =
      add_score-runs y m.total_score_b (b + 250) ss (omega (arith, la, rq.inside)) small_b
        (omega arith) ba in
    let found_a = find_entry_account-runs passed p w rp.here rp.found in
    let found_b = find_entry_account-runs passed q w rq.here rq.found in
    let at_a : (ea.index == x) ≡ true = grind (arith, rp.placed) in
    let at_b : (eb.index == y) ≡ true = grind (arith, rq.placed) in
    (
      ss',
      write_entry q eb' (write_entry p ea' w.entries),
      rw (found_a, found_b, at_a, at_b, fa, fb, ga, gb, ha, hb) refl,
      AllLe-weaken (b + 250 + 250) (b + 500) ss' (omega arith) bb,
      AllPlayable-weaken (b + 250) (b + 500) (write_entry q eb' (write_entry p ea' w.entries))
          (omega arith)
          (AllPlayable-write (b + 250) q eb' (write_entry p ea' w.entries)
            (AllPlayable-write (b + 250) p ea' w.entries
              (AllPlayable-weaken b (b + 250) w.entries (omega arith) playable) pa)
            pb),
    )

Ready-of_playing :
    (passed : List Pubkey) (w : World) (v : IsPlaying w) (i p : ℕ)
    → PassesAll passed w
    → get_elem? w.tournament.players i ≡ some p
    → 0 < p
    → i < length w.tournament.players
    → Ready passed (500 * w.tournament.matches_completed) i p w
Ready-of_playing passed w v i p all e h inside =
    let s = v.sound.sound in
    let (a, f, at) =
      find_entry-Occupied w.tournament.players w.tournament.strategies w.entries i s.seated
        (s.opened (rw v.now refl)) e h in
    record {
      here = all i p e h;
      account = a;
      found = f;
      placed = at;
      playable = AllPlayable-find _ p w.entries v.playable f;
      inside = omega (arith, s.scores);
    }

pub matches_total-le : (w : World) → IsPlaying w → w.tournament.matches_total ≤ 250000
matches_total-le w v =
    rw (v.total, v.drawn)
      (calculate_match_count_le w.tournament.participant_count v.config_k
        w.tournament.randomness_seed v.several v.allowed)

-- What remains of a running tournament after a match.
Playing-after :
    (w : World) (ss : List ℕ) (es : List EntryAccount)
    → IsPlaying w
    → w.tournament.matches_completed < w.tournament.matches_total
    → IsSoundWorld (played ss es w)
    → AllLe (500 * w.tournament.matches_completed + 500) ss
    → AllPlayable (500 * w.tournament.matches_completed + 500) es
    → IsPlaying (played ss es w)
      × (add_u32 w.tournament.matches_completed 1 ≡ w.tournament.matches_completed + 1)
Playing-after w ss es v more sound low playable =
    let total = matches_total-le w v in
    let next : add_u32 w.tournament.matches_completed 1 ≡ w.tournament.matches_completed + 1 =
      ground (arith, add_u32) in
    (
      record {
        sound = sound;
        now = v.now;
        several = v.several;
        allowed = v.allowed;
        config_k = v.config_k;
        drawn = v.drawn;
        total = v.total;
        done = rw next (omega arith);
        low = rw next (AllLe-weaken _ _ ss (omega arith) low);
        playable = rw next (AllPlayable-weaken _ _ es (omega arith) playable);
      },
      next,
    )

next_pairing :
    (w : World)
    → IsPlaying w
    → w.tournament.matches_completed < w.tournament.matches_total
    → (x y : ℕ) × (get_pairing_for_match w.tournament.participant_count
          w.tournament.matches_per_player w.tournament.randomness_seed
          w.tournament.matches_completed
        ≡ some (x, y))
      × (x < y)
      × (y < w.tournament.participant_count)
next_pairing w v more =
    let t = w.tournament in
    rw v.drawn (
      get_pairing_for_match_total t.participant_count v.config_k t.randomness_seed
        t.matches_completed v.several v.allowed
        (omega (
          arith,
          v.total,
          ap (λ k. calculate_match_count t.participant_count k t.randomness_seed) v.drawn,
        )))

-- Two slots that the schedule pairs.
one_pair :
    (passed : List Pubkey) (w : World)
    → IsPlaying w
    → PassesAll passed w
    → (x y p q : ℕ) → x < length w.tournament.players
    → y < length w.tournament.players
    → get_elem? w.tournament.players x ≡ some p
    → get_elem? w.tournament.players y ≡ some q
    → get_pairing_for_match w.tournament.participant_count w.tournament.matches_per_player
        w.tournament.randomness_seed w.tournament.matches_completed
      ≡ some (x, y)
    → w.tournament.matches_completed < 250000
    → (ss : List ℕ) × (es : List EntryAccount) × (run_one passed w.tournament.matches_completed w
        ≡ ok (played ss es w))
      × AllLe (500 * w.tournament.matches_completed + 500) ss
      × AllPlayable (500 * w.tournament.matches_completed + 500) es
unfolding run_one
one_pair passed w v all x y p q in_x in_y fp fq paired room =
    let b = 500 * w.tournament.matches_completed in
    elim (Bool-cases (is_default p || is_default q)) [
      | inl skip ↦ (
        w.tournament.scores,
        w.entries,
        rw (paired, fp, fq, skip) refl,
        AllLe-weaken b (b + 500) w.tournament.scores (omega arith) v.low,
        AllPlayable-weaken b (b + 500) w.entries (omega arith) v.playable,
      )
      | inr both ↦
          (let (ss, es, runs, low, playable) =
              play_pair-runs passed w.tournament.matches_completed x y p q b w
                (Ready-of_playing passed w v x p all fp (ground arith) in_x)
                (Ready-of_playing passed w v y q all fq (ground arith) in_y) (omega arith) v.low
                v.playable in
            (ss, es, rw (paired, fp, fq, both) runs, low, playable))
    ]

-- What `run_matches` has done after some matches of a running tournament.
pub record HasRun (passed : List Pubkey) (matches : ℕ) (w w' : World) : Type 0 where
  pub playing : IsPlaying w'
  pub passes : PassesAll passed w'
  pub completed : w'.tournament.matches_completed ≡ w.tournament.matches_completed + matches
  pub total : w'.tournament.matches_total ≡ w.tournament.matches_total
  pub costs : w'.tournament.operator_costs ≡ w.tournament.operator_costs
  pub config : w'.config ≡ w.config

-- The next match of a running tournament is played or passed over.
pub run_one-runs :
    (passed : List Pubkey) (w : World)
    → IsPlaying w
    → PassesAll passed w
    → w.tournament.matches_completed < w.tournament.matches_total
    → (w' : World) × (run_one passed w.tournament.matches_completed w ≡ ok w')
      × HasRun passed 1 w w'
run_one-runs passed w v all more =
    let t = w.tournament in
    let s = v.sound.sound in
    let room = matches_total-le w v in
    let (x, y, paired, lo, hi) = next_pairing w v more in
    let wide : t.participant_count ≤ length t.players = rw s.counted (active-le-length t.players) in
    let (p, fp) = get_elem?-inside t.players x (omega arith) in
    let (q, fq) = get_elem?-inside t.players y (omega arith) in
    let (ss, es, runs, low, playable) =
      one_pair passed w v all x y p q (omega arith) (omega arith) fp fq paired (omega arith) in
    let (after, next) =
      Playing-after w ss es v more
        (run_one-IsSoundWorld passed t.matches_completed w (played ss es w) v.sound runs) low
        playable in
    (
      played ss es w,
      runs,
      record {
        playing = after;
        passes = all;
        completed = next;
        total = refl;
        costs = refl;
        config = refl;
      },
    )
