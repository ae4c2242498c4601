-- ===== src/Strategy/Parity.antt =====
-- The byte programs of the parity tests in crates/match-logic/src/vm.rs against the built-in
-- strategies of crates/match-logic/src/strategy.rs.
use prisoners_arena_program.Base.{
  ℕ, suc, ◌-◌, ◌≡◌, ◌<◌, refl, arith, true, false, Option, none, some, List, [], ◌∷◌, length, zero,
  ltb, last?, get_elem?, get_or, inl, inr, Bool-cases, Bool, if◌then◌else◌, ◌==◌, ◌&&◌, ap, ◌∙◌,
}
use mathlib.Core.Option.{some-injective}
use prisoners_arena_program.Random.{SeededRng}
use prisoners_arena_program.Moves.{
  Move, cooperate, defect, is_defect, History, payoff, or_cooperate,
}
use prisoners_arena_program.Vm.{
  defections, execute_inner, execute_bytecode, run, turn, step, count_defects, move_to_u8,
  history_n_ago, from_bool, is_nonzero, score_last,
}
use prisoners_arena_program.Vm.Opcode.{decode}
use prisoners_arena_program.Strategy.{
  StrategyBase, tit_for_tat, always_defect, always_cooperate, grim_trigger, pavlov,
  suspicious_tit_for_tat, tit_for_two_tats, random, gradual, builtin, custom, execute_strategy,
  execute_player_strategy, execute_tit_for_tat, execute_grim_trigger, any_defect,
  execute_suspicious_tit_for_tat, execute_tit_for_two_tats, execute_pavlov,
}
use prisoners_arena_program.Strategy.Codes.{
  tit_for_tat_code, grim_trigger_code, suspicious_tit_for_tat_code, tit_for_two_tats_code,
  pavlov_test_code, code_for,
}

get_or-get_elem? :
    (h : History) (i : ℕ) → i < length h → get_elem? h i ≡ some (get_or h i cooperate)
get_or-get_elem? [] i h = absurd (omega arith)
get_or-get_elem? (x ∷ xs) zero h = refl
get_or-get_elem? (x ∷ xs) (suc i) h = get_or-get_elem? xs i (omega arith)

evaluate : List ℕ → History → History → ℕ → SeededRng → Move
unfolding execute_player_strategy execute_bytecode execute_inner run turn step decode move_to_u8
evaluate code opponent mine round rng =
    execute_player_strategy (custom code) opponent mine round rng

tit_for_tat-evaluate :
    (opponent mine : History) (round : ℕ) (rng : SeededRng)
    → evaluate tit_for_tat_code opponent mine round rng ≡ execute_tit_for_tat opponent
unfolding evaluate execute_tit_for_tat
tit_for_tat-evaluate opponent mine round rng = ground arith

count_defects-pos : (h : History) → ltb 0 (count_defects h) ≡ any_defect h
unfolding count_defects any_defect defections
count_defects-pos [] = refl
count_defects-pos (cooperate ∷ h) = count_defects-pos h
count_defects-pos (defect ∷ h) = ground arith

grim_trigger-evaluate :
    (opponent mine : History) (round : ℕ) (rng : SeededRng)
    → evaluate grim_trigger_code opponent mine round rng ≡ execute_grim_trigger opponent
unfolding evaluate execute_grim_trigger
grim_trigger-evaluate opponent mine round rng = ground (arith, count_defects-pos opponent)

-- A run in the middle: `v` is the operand of the jump at hand, above `w`.
abbrev resume : List ℕ → ℕ → ℕ → ℕ → ℕ → History → History → ℕ → SeededRng → Option Move
resume code fuel pc v w opponent mine round rng =
    run fuel
      (record { bytecode = code; opponent_history = opponent; my_history = mine; round = round })
      (record { stack = v ∷ w ∷ 0 ∷ 0 ∷ 0 ∷ 0 ∷ 0 ∷ 0 ∷ []; sp = 1; pc = pc; rng = rng })

module _ (opponent mine : History) (round : ℕ) (rng : SeededRng) where
  suspicious_branch :
      (first : Bool)
      → resume suspicious_tit_for_tat_code 125 4 (from_bool first) 0 opponent mine round rng
        ≡ some (if first then defect else or_cooperate (last? opponent))
  unfolding run turn step decode move_to_u8
  suspicious_branch true = refl
  suspicious_branch false = ground arith

  two_tats_branch :
      (early : Bool)
      → resume tit_for_two_tats_code 125 4 (from_bool early) 2 opponent mine round rng
        ≡ some (
            if early
            then cooperate
            else if is_nonzero (history_n_ago opponent 0) && is_nonzero (history_n_ago opponent 1)
            then defect
            else cooperate)
  unfolding run turn step decode
  two_tats_branch true = refl
  two_tats_branch false = ground arith

-- From the start to the first jump.
module _ (opponent mine : History) (round : ℕ) (rng : SeededRng) where
  suspicious_start :
      evaluate suspicious_tit_for_tat_code opponent mine round rng
      ≡ or_cooperate (
          resume suspicious_tit_for_tat_code 125 4
            (from_bool (round == 0))
            0
            opponent
            mine
            round
            rng)
  unfolding evaluate
  suspicious_start = refl

  two_tats_start :
      evaluate tit_for_two_tats_code opponent mine round rng
      ≡ or_cooperate
          (resume tit_for_two_tats_code 125 4 (from_bool (ltb round 2)) 2 opponent mine round rng)
  unfolding evaluate
  two_tats_start = refl

last?-cons : (m : Move) (h : History) → (n : Move) × (last? (m ∷ h) ≡ some n)
last?-cons m [] = (m, refl)
last?-cons m (n ∷ h) = last?-cons n h

suspicious_tit_for_tat-evaluate :
    (opponent mine : History) (rng : SeededRng)
    → evaluate suspicious_tit_for_tat_code opponent mine (length opponent) rng
      ≡ execute_suspicious_tit_for_tat opponent
unfolding evaluate execute_suspicious_tit_for_tat
suspicious_tit_for_tat-evaluate opponent mine rng =
    ap or_cooperate (suspicious_branch opponent mine (length opponent) rng (length opponent == 0))
    ∙ tail opponent
  where
    tail :
        (h : History)
        → (if length h == 0 then defect else or_cooperate (last? h))
          ≡ execute_suspicious_tit_for_tat h
    tail [] = refl
    tail (m ∷ h) = ground (arith, last?-cons m h)

history_n_ago-eq :
    (h : History) (n : ℕ)
    → n < length h
    → is_nonzero (history_n_ago h n) ≡ is_defect (get_or h (length h - 1 - n) cooperate)
unfolding history_n_ago move_to_u8
history_n_ago-eq h n le = ground (arith, get_or-get_elem? h (length h - 1 - n))

tit_for_two_tats-evaluate :
    (opponent mine : History) (rng : SeededRng)
    → evaluate tit_for_two_tats_code opponent mine (length opponent) rng
      ≡ execute_tit_for_two_tats opponent
unfolding evaluate execute_tit_for_two_tats
tit_for_two_tats-evaluate opponent mine rng =
    ap or_cooperate (two_tats_branch opponent mine (length opponent) rng (ltb (length opponent) 2))
    ∙ ground (arith, history_n_ago-eq opponent 0, history_n_ago-eq opponent 1)

-- For each of the programs but Pavlov's, on histories of one length and in the round that they make:
-- the machine running the program chooses the move of the built-in strategy.
pub custom-eq-builtin :
    (s : StrategyBase) {code : List ℕ} (opponent mine : History) (rng : SeededRng)
    → code_for s ≡ some code
    → length opponent ≡ length mine
    → execute_player_strategy (custom code) opponent mine (length opponent) rng
      ≡ execute_player_strategy (builtin s) opponent mine (length opponent) rng
unfolding code_for evaluate execute_strategy
custom-eq-builtin tit_for_tat opponent mine rng h e =
    rw (← some-injective _ _ h) (tit_for_tat-evaluate opponent mine (length opponent) rng)
custom-eq-builtin always_defect opponent mine rng h e = rw (← some-injective _ _ h)
custom-eq-builtin always_cooperate opponent mine rng h e = rw (← some-injective _ _ h)
custom-eq-builtin grim_trigger opponent mine rng h e =
    rw (← some-injective _ _ h) (grim_trigger-evaluate opponent mine (length opponent) rng)
custom-eq-builtin pavlov opponent mine rng h e = cc
custom-eq-builtin suspicious_tit_for_tat opponent mine rng h e =
    rw (← some-injective _ _ h) (suspicious_tit_for_tat-evaluate opponent mine rng)
custom-eq-builtin random opponent mine rng h e = cc
custom-eq-builtin tit_for_two_tats opponent mine rng h e =
    rw (← some-injective _ _ h) (tit_for_two_tats-evaluate opponent mine rng)
custom-eq-builtin gradual opponent mine rng h e = cc

module _ (opponent mine : History) (round : ℕ) (rng : SeededRng) where
  pavlov_test_bad : resume pavlov_test_code 121 10 (from_bool true) 3 opponent mine round rng ≡ none
  unfolding run turn step decode
  pavlov_test_bad = refl

  pavlov_test_first :
      (first : Bool)
      → resume pavlov_test_code 125 4 (from_bool first) 0 opponent mine round rng ≡ (
          if first
          then none
          else resume pavlov_test_code 121 10
              (from_bool (ltb (score_last (last? mine) (last? opponent)) 3))
              3
              opponent
              mine
              round
              rng)
  unfolding run turn step decode
  pavlov_test_first true = refl
  pavlov_test_first false = refl

  pavlov_test_start :
      evaluate pavlov_test_code opponent mine round rng
      ≡ or_cooperate
          (resume pavlov_test_code 125 4 (from_bool (round == 0)) 0 opponent mine round rng)
  unfolding evaluate
  pavlov_test_start = refl

  pavlov_test-evaluate :
      last? opponent ≡ some defect
      → last? mine ≡ some cooperate
      → evaluate pavlov_test_code opponent mine round rng ≡ cooperate
  unfolding score_last payoff
  pavlov_test-evaluate h k =
      pavlov_test_start
      ∙ ap or_cooperate (pavlov_test_first (round == 0))
      ∙ elim (Bool-cases (round == 0)) [ inl e ↦ rw e | inr e ↦ rw (e, h, k, pavlov_test_bad) ]

-- The program that `test_parity_pavlov` uses is not Pavlov: after a round in which it cooperated
-- and the opponent defected it cooperates, where Pavlov switches to defection.
pub pavlov_test_code-ne-pavlov :
    (opponent mine : History) (rng : SeededRng)
    → length opponent ≡ length mine
    → last? opponent ≡ some defect
    → last? mine ≡ some cooperate
    → (execute_player_strategy (custom pavlov_test_code) opponent mine (length opponent) rng
        ≡ cooperate)
      × (execute_player_strategy (builtin pavlov) opponent mine (length opponent) rng ≡ defect)
unfolding evaluate execute_strategy execute_pavlov payoff
pavlov_test_code-ne-pavlov opponent [] rng e h k = cc
pavlov_test_code-ne-pavlov [] (n ∷ mine) rng e h k = cc
pavlov_test_code-ne-pavlov (m ∷ opponent) (n ∷ mine) rng e h k =
    (pavlov_test-evaluate (m ∷ opponent) (n ∷ mine) (length (m ∷ opponent)) rng h k, rw (h, k))
