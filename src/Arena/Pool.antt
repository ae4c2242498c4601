-- ===== src/Arena/Pool.antt =====
-- The pool of a tournament of programs/prisoners-arena and the stakes of its players.
pub mod Steps
pub mod Matches
pub mod Reach
use prisoners_arena_program.Base.{
  ℕ, length, ◌+◌, ◌-◌, ◌*◌, ◌%◌, ◌^◌, ◌≤◌, ◌<◌, ◌≡◌, arith, ap, sym, ◌∙◌,
}
use prisoners_arena_program.Arena.State.{Tournament}

-- The pool is the stake, which is a u64, times the number of players, as far as a u64 holds it; and a
-- u16 holds the slots, of which the players are no more.
pub record IsPooled (t : Tournament) : Type 0 where
  pub few : length t.players < 2 ^ 16
  pub within : t.participant_count ≤ length t.players
  pub pooled : t.stake < 2 ^ 64 → t.pool ≡ t.stake * t.participant_count % 2 ^ 64

-- Nothing of that changes.
pub record SamePool (t t' : Tournament) : Type 0 where
  pub stake : t'.stake ≡ t.stake
  pub pool : t'.pool ≡ t.pool
  pub participants : t'.participant_count ≡ t.participant_count
  pub players : t'.players ≡ t.players

pub SamePool-IsPooled : (t t' : Tournament) → SamePool t t' → IsPooled t → IsPooled t'
SamePool-IsPooled t t' e v = record {
  few = rw e.players v.few;
  within = rw (e.players, e.participants) v.within;
  pooled = λ small. rw (e.pool, e.stake, e.participants) (v.pooled (rw e.stake at small));
}

pub SamePool-trans : (t t' u : Tournament) → SamePool t t' → SamePool t' u → SamePool t u
SamePool-trans t t' u p q = record {
  stake = q.stake ∙ p.stake;
  pool = q.pool ∙ p.pool;
  participants = q.participants ∙ p.participants;
  players = q.players ∙ p.players;
}

times_more : (s n : ℕ) → s * (n + 1) ≡ s * n + s
times_more s n = grind arith

-- A player more, and one less.
pub joins-IsPooled :
    (t t' : Tournament)
    → t'.stake ≡ t.stake
    → t'.pool ≡ (t.pool + t.stake) % 2 ^ 64
    → t'.participant_count ≡ t.participant_count + 1
    → length t'.players ≡ length t.players + 1
    → length t.players + 1 < 2 ^ 16
    → IsPooled t
    → IsPooled t'
joins-IsPooled t t' stake pool count slots room v =
    let more = times_more t.stake t.participant_count in
    record {
      few = omega (arith, slots, room);
      within = omega (arith, slots, count, v.within);
      pooled = λ small. rw (pool, stake, count, more) (omega (arith, v.pooled (rw stake at small)));
    }

pub leaves-IsPooled :
    (t t' : Tournament)
    → t'.stake ≡ t.stake
    → (t.stake < 2 ^ 64 → t.pool < 2 ^ 64 → t'.pool ≡ (t.pool + 2 ^ 64 - t.stake) % 2 ^ 64)
    → t'.participant_count + 1 ≡ t.participant_count
    → length t'.players ≡ length t.players
    → IsPooled t
    → IsPooled t'
leaves-IsPooled t t' stake pool count slots v =
    let less = times_more t.stake t'.participant_count in
    let whole : t.stake * t.participant_count ≡ t.stake * t'.participant_count + t.stake =
      rw (← count) less in
    record {
      few = omega (arith, slots, v.few);
      within = omega (arith, slots, count, v.within);
      pooled = λ small.
          let fits : t.stake < 2 ^ 64 = rw stake at small in
          let was = v.pooled fits in
          let now = pool fits (omega (arith, was)) in
          rw stake (omega (arith, now, was, whole, fits));
    }
